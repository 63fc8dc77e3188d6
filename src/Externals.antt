-- ===== src/Externals.antt =====
-- What the broker calls and does not implement: JSON, bcrypt, MD5 and the printing of floats. The
-- error of a call stands on the left. No law is assumed here: a theorem that needs one has it as a
-- hypothesis.
use nfsbroker.Base.{ℕ, String, Bool, ◌⊎◌}
use nfsbroker.Api.{Params, Error}

pub record Externals : Type 0 where
  -- `fmt.Sprintf("%#v", x)` of a float, by its size and its bits.
  pub float_text : ℕ → ℕ → String
  -- `json.Marshal` of a `map[string]interface{}`.
  pub marshal : Params → Error ⊎ String
  -- `bcrypt.GenerateFromPassword(text, bcrypt.DefaultCost)`, with the salt that it draws.
  pub generate : String → String → Error ⊎ String
  -- `bcrypt.CompareHashAndPassword(hash, text) == nil`.
  pub matches : String → String → Bool
  -- `fmt.Sprintf("%x", md5.Sum(text))`.
  pub md5_hex : String → String
  -- The decoding of a request's raw parameters into `Configuration`, to its `Share`.
  pub decode_share : String → Error ⊎ String
