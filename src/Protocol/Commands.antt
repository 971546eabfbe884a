-- ===== src/Protocol/Commands.antt =====
-- `parse_client_command` of app/asr_gateway_protocol.py. The values of options are not looked into,
-- and are of any type `M`. What `str` makes of a value is given with it.
use model_test.Prelude.{
  ℕ, List, [], ◌∷◌, Option, none, some, Bool, true, false, ◌||◌, not, any, ltb, ◌==◌, if◌then◌else◌,
  all, length, Text, text_eq, codes, Result, ok, err, value_error, ◌>>=◌, ◌>>◌, raise_if,
}
use model_test.Prelude.Dict.{Dict, lookup}
use model_test.Streaming.Chars.{Unicode, strip}
use model_test.Streaming.State.{is_empty}

-- A value of the payload: a text, a number with the natural that it equals if there is one, an
-- object, or another value. Each comes with what `str` makes of it.
pub data Value (M : Type 0) : Type 0 where
  text_value : Text → Value M
  number_value : Option ℕ → Text → Value M
  object_value : Dict M → Text → Value M
  other_value : Text → Value M

pub record StartCommand (M : Type 0) : Type 0 where
  pub language : Text
  pub options : Dict M

pub data Command (M : Type 0) : Type 0 where
  start : StartCommand M → Command M
  control : Text → Command M

abbrev pub allowed_options : List Text
allowed_options = codes "timestamps" ∷ codes "task" ∷ codes "prompt" ∷ codes "hotwords" ∷ []

module _ {M : Type 0} where
  -- `str(value)`
  abbrev pub to_str : Value M → Text
  to_str (text_value t) = t
  to_str (number_value n t) = t
  to_str (object_value d t) = t
  to_str (other_value t) = t

  -- `value == text`, where a missing value equals its default
  abbrev pub is_text : Text → Option (Value M) → Bool
  is_text t none = true
  is_text t (some (text_value s)) = text_eq s t
  is_text t (some _) = false

  -- `payload.get(key, n) == n`
  abbrev pub is_number : ℕ → Option (Value M) → Bool
  is_number n none = true
  is_number n (some (number_value (some m) t)) = m == n
  is_number n (some _) = false

  -- `str(payload.get("language", "auto")).strip().lower()`
  unfoldable pub language_of : Unicode → Option (Value M) → Text
  language_of u none = u.lower (strip u.is_space (codes "auto"))
  language_of u (some v) = u.lower (strip u.is_space (to_str v))

  abbrev pub is_allowed : Text × M → Bool
  is_allowed (key, m) = any (text_eq key) allowed_options

  unfoldable pub options_of : Option (Value M) → Result (Dict M)
  options_of none = ok []
  options_of (some (object_value d t)) =
      if all is_allowed d then ok d else err (value_error "options contain unsupported fields")
  options_of (some _) = err (value_error "options must be an object")

  -- `parse_client_command` on a `start`
  unfoldable pub parse_start : Unicode → Dict (Value M) → Result (Command M)
  parse_start u payload = do
    raise_if (not (is_text (codes "pcm_s16le") (lookup (codes "format") payload)))
        (value_error "format must be pcm_s16le")
    raise_if (not (is_number 16000 (lookup (codes "sample_rate") payload)))
        (value_error "sample_rate must be 16000")
    raise_if (not (is_number 1 (lookup (codes "channels") payload)))
        (value_error "channels must be one")
    let language = language_of u (lookup (codes "language") payload)
    raise_if (is_empty language || ltb 32 (length language)) (value_error "language is invalid")
    options ← options_of (lookup (codes "options") payload)
    ok (start (record { language = language; options = options }))

  -- `parse_client_command` on the `type` of the payload
  unfoldable pub parse_typed : Unicode → Option (Value M) → Dict (Value M) → Result (Command M)
  parse_typed u (some (text_value t)) payload =
      if text_eq t (codes "start")
      then parse_start u payload
      else if any (text_eq t) (codes "segment" ∷ codes "finish" ∷ codes "abort" ∷ [])
      then ok (control t)
      else err (value_error "unsupported command type")
  parse_typed u _ payload = err (value_error "unsupported command type")

  -- `parse_client_command`; `none` is a payload that is no mapping
  unfoldable pub parse_client_command : Unicode → Option (Dict (Value M)) → Result (Command M)
  parse_client_command u none = err (value_error "command must be an object")
  parse_client_command u (some payload) = parse_typed u (lookup (codes "type") payload) payload
