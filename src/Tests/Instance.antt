-- ===== src/Tests/Instance.antt =====
-- A server at concrete values: its disk, its settings, an upload, a query.
use leasewebassignment.Base.{ℕ, false, [], ◌∷◌, length, none, ok}
use leasewebassignment.Text.{codes}
use leasewebassignment.Text.Decimal.{decimal}
use leasewebassignment.Store.{MemoryRepository, new_indexed_server}
use leasewebassignment.Store.Files.{FileSystem}
use leasewebassignment.Handlers.{Values}
use leasewebassignment.Handlers.Page.{Allowed}
use leasewebassignment.Server.{App, Settings, Call, upload_call, start}
use leasewebassignment.Adapter.{Encoding}
use leasewebassignment.Handlers.Upload.{Form}
use leasewebassignment.Tests.Parts.{
  plain_unicode, memory_disk, empty_disk, dell, supermicro, empty_repository, parse_one,
}

abbrev pub disk : FileSystem
disk = memory_disk false

abbrev pub no_lists : Allowed
no_lists = record { ram = []; disk_types = [] }

abbrev pub plain_encoding : Encoding ℕ
plain_encoding = record {
  marshal = λ page. ok (codes "{}");
  sum64a = λ s. length s;
  format_hex = λ n. decimal n;
}

abbrev pub settings : Settings ℕ
settings = record {
  auth_key = codes "secret";
  allowed = no_lists;
  parse = parse_one;
  encoding = plain_encoding;
}

abbrev pub form : Form
form = record {
  parse_failed = none;
  file = ok (record { filename = codes "a.csv"; content = ok (codes "x") });
}

abbrev pub upload : Call
upload = upload_call (codes "Bearer secret") form

abbrev pub booted : App disk ℕ
booted = start disk settings (codes "up") (codes "seed.csv") empty_disk

abbrev pub two_servers : MemoryRepository ℕ
two_servers = record empty_repository {
  servers = new_indexed_server dell ∷ new_indexed_server supermicro ∷ [];
}

abbrev pub query : Values
query = (codes "location", codes "amsterdam") ∷ (codes "limit", codes "1") ∷ []
