-- ===== src/Enroll/Service.antt =====
-- The handler of `POST /enroll`, and requests one after another.
pub mod Kept
pub mod Gate
use pitviper.Base.{
  ℕ, Bool, true, false, not, ◌||◌, if◌then◌else◌, Option, none, some, List, [], ◌∷◌, bytes_eq,
  has_prefix, codes,
}
use pitviper.Enroll.Text.{trim_space}
use pitviper.Enroll.Keys.{Faults, append_authorized_key}

-- `enrollRequest`
pub record EnrollRequest : Type 0 where
  pub code : List ℕ
  pub pubkey : List ℕ

-- A request: whether the method is POST, and the body as JSON, if it decodes.
pub record Request : Type 0 where
  pub is_post : Bool
  pub body : Option EnrollRequest

-- What the handler answers, by its `http.Error` calls.
pub data Reply : Type 0 where
  enrolled : Reply
  method_not_allowed : Reply
  invalid_json : Reply
  forbidden : Reply
  bad_pubkey : Reply
  internal_error : Reply

unfoldable pub status : Reply → ℕ
status Reply.enrolled = 200
status Reply.method_not_allowed = 405
status Reply.invalid_json = 400
status Reply.forbidden = 403
status Reply.bad_pubkey = 400
status Reply.internal_error = 500

-- The file, and whether the channel `done` holds its one value.
pub record Service : Type 0 where
  pub file : Option (List ℕ)
  pub done : Bool

-- The part of the handler after the code was compared.
unfoldable pub enroll : Faults → List ℕ → Service → Service × Reply
enroll f text s =
    let pubkey : List ℕ = trim_space text in
    if bytes_eq pubkey [] || not (has_prefix pubkey (codes "ssh-"))
    then (s, Reply.bad_pubkey)
    else let (file, ok) : Option (List ℕ) × Bool = append_authorized_key f s.file pubkey in
      if ok
      then (record { file = file; done = true }, Reply.enrolled)
      else (record s { file = file }, Reply.internal_error)

-- The handler, with the code that the process made.
unfoldable pub handle : List ℕ → Faults → Request → Service → Service × Reply
handle code f r s = if not r.is_post then (s, Reply.method_not_allowed) else elim r.body [
  | none ↦ (s, Reply.invalid_json)
  | some req ↦ if not (bytes_eq req.code code) then (s, Reply.forbidden) else enroll f req.pubkey s
]

-- Requests with the faults that they meet, one after another.
unfoldable pub serve : List ℕ → List (Faults × Request) → Service → Service
serve code [] s = s
serve code ((f, r) ∷ calls) s = serve code calls (handle code f r s).0
