-- ===== src/Tests/ServerRuns.antt =====
-- The server at concrete values.
use leasewebassignment.Base.{ℕ, true, false, [], ◌∷◌, ◌++◌, some, ◌≡◌, refl, ◌↔◌, ◌⊎◌, arith}
use leasewebassignment.Base.Int.{pos}
use leasewebassignment.Text.{Bytes, codes, is_empty}
use leasewebassignment.Store.{new_indexed_server}
use leasewebassignment.Handlers.Page.{ServersResponse, handle_get_servers}
use leasewebassignment.Server.{upload_call, serve}
use leasewebassignment.Adapter.{respond, empty}
use leasewebassignment.Handlers.Upload.{Form}
use leasewebassignment.Server.Access.{serve_changes}
use leasewebassignment.Server.Running.{IsRunning, started, served, Reaches-IsRunning}
use leasewebassignment.Server.Ready.{IsUpload, serve-ready_iff}
use leasewebassignment.Server.Listing.{Listed, Rejected, handle_get_servers_lem}
use leasewebassignment.Tests.Parts.{plain_unicode, memory_disk_lawful, empty_disk}
use leasewebassignment.Tests.Instance.{disk, no_lists, settings, upload, booted, two_servers, query}

serve_changes_example :
    ((serve disk settings upload booted).0 ≡ booted)
    ⊎ ((form' : Form) × (upload ≡ upload_call (codes "Bearer " ++ codes "secret") form')
        × (is_empty (codes "secret") ≡ false))
serve_changes_example = serve_changes disk settings upload booted

abbrev mark : ℕ → Bytes → Bytes
mark n s = n ∷ s

-- A server whose data file is missing, after an upload.
Reaches-IsRunning_example : IsRunning disk (serve disk settings upload booted).0
Reaches-IsRunning_example =
    Reaches-IsRunning disk (memory_disk_lawful false) settings (codes "up") (codes "seed.csv")
      empty_disk (serve disk settings upload booted).0 (served upload started)

serve-ready_iff_example : ((serve disk settings upload booted).0.ready ≡ true) ↔ (
    (booted.ready ≡ true)
    ⊎ (IsUpload upload × ((serve disk settings upload booted).1 ≡ some (respond 204 empty))))
serve-ready_iff_example = serve-ready_iff disk settings upload booted

handle_get_servers_lem_example :
    Listed disk no_lists two_servers query (
      handle_get_servers disk no_lists
        (record { repo = some two_servers; files = empty_disk })
        query)
    ⊎ Rejected disk no_lists query (
        handle_get_servers disk no_lists
          (record { repo = some two_servers; files = empty_disk })
          query)
unfolding new_indexed_server
handle_get_servers_lem_example =
    handle_get_servers_lem disk no_lists two_servers empty_disk query (refl, (refl, tt))
      (omega arith)

abbrev page : ServersResponse ℕ
page = record { page = []; meta = record { total = pos 0; limit = pos 50; offset = pos 0 } }
