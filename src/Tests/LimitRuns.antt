-- ===== src/Tests/LimitRuns.antt =====
-- A body over the limit, at a concrete request.
use leasewebassignment.Base.{
  ℕ, zero, suc, true, false, ◌<◌, [], ◌∷◌, length, none, some, ◌≡◌, refl, ap, arith,
}
use leasewebassignment.Text.{Bytes, codes, same, cut_prefix}
use leasewebassignment.Errors.{wrapped}
use leasewebassignment.Handlers.Upload.{RequestBody, Form, as_max_bytes}
use leasewebassignment.Middleware.{Request, is_blocked}
use leasewebassignment.Adapter.{Response}
use leasewebassignment.Server.Routes.{max_upload_bytes, answer, mux}
use leasewebassignment.Server.Oversized.{PassesOn, mux-oversized}
use leasewebassignment.Tests.Parts.{plain_unicode}
use leasewebassignment.Tests.Instance.{disk, settings, form}
use leasewebassignment.Tests.HttpRuns.{library, loaded, request}

-- some zero bytes
zeros : ℕ → Bytes
zeros zero = []
zeros (suc n) = 0 ∷ zeros n

length-zeros : (n : ℕ) → length (zeros n) ≡ n
unfolding zeros
length-zeros zero = refl
length-zeros (suc n) = ap suc (length-zeros n)

-- a form that ends nowhere, so that the error of the reader is met
abbrev Never : Bytes → Type 0
Never bytes = ⊥

abbrev read_on : RequestBody → Form
read_on body = elim body.failed [
  | none ↦ form
  | some e ↦ record {
    parse_failed = some (wrapped e (codes "multipart: NextPart"));
    file = form.file;
  }
]

read_on-PassesOn : PassesOn read_on Never
unfolding as_max_bytes
read_on-PassesOn body e failed unclosed =
    (wrapped e (codes "multipart: NextPart"), rw (failed, read_on) refl, refl)

abbrev big_upload : Request
big_upload = record request {
  method = codes "POST";
  path = codes "/v1/admin/upload";
  escaped_path = codes "/v1/admin/upload";
  authorization = codes "Bearer secret";
  body = record { bytes = zeros (suc max_upload_bytes); failed = none };
  multipart = read_on;
}

passed : is_blocked (codes "secret") (codes "Bearer secret") ≡ false
unfolding is_blocked same cut_prefix
passed = refl

over : (n : ℕ) → n < length (zeros (suc n))
over n = let e = length-zeros (suc n) in omega (arith, e)

mux-oversized_example :
    (response : Response) × (response.status ≡ 413)
    × (mux disk library true settings big_upload loaded
        ≡ answer library true big_upload (loaded, some response))
mux-oversized_example =
    mux-oversized disk library true settings big_upload loaded Never refl refl passed
      (over max_upload_bytes) read_on-PassesOn (λ e. e)
