-- ===== src/Web.antt =====
-- internal/web/web.go: the answers of the /api handlers. A body is the value that is encoded as JSON, or
-- an error's message.
use lp_700_server.Prelude.{ℕ, Bool, true, false, Option, []}
use lp_700_server.Meter.Snapshot.{Bytes}

-- The parts of a request that the handlers read; what the JSON decoder makes of the body is `decoded`.
pub record Request {ℓ} (A : Type ℓ) : Type ℓ where
  pub method : Bytes
  pub remote : Bytes
  pub decoded : Option A

pub data Body {ℓ} (A : Type ℓ) : Type ℓ where
  value : A → Body A
  error : Bytes → Body A

-- `allow` and `nosniff` are the headers of those names.
pub record Response {ℓ} (A : Type ℓ) : Type ℓ where
  pub status : ℕ
  pub allow : Bytes
  pub nosniff : Bool
  pub body : Body A

-- What `Encode` answers on its own: status 200.
abbrev pub encode {ℓ} : {A : Type ℓ} → A → Response A
encode a = record { status = 200; allow = []; nosniff = false; body = value a }

-- `WriteJSONError`; `allow` is what the caller has set.
unfoldable pub write_json_error {ℓ} : {A : Type ℓ} → Bytes → ℕ → Bytes → Response A
write_json_error allow status msg = record {
  status = status;
  allow = allow;
  nosniff = true;
  body = error msg;
}
