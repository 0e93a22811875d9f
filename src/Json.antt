-- ===== src/Json.antt =====
-- The JSON checks of protocol.go: `validateJSON`, `walkJSON`, `validateSurrogates` and
-- `DecodeMetadata`. The tokenizer of encoding/json and its typed decoding are a parameter,
-- `Json`; unicode/utf8 and strconv.ParseUint are written out as far as they are called.
pub mod Walk
pub mod Accepts
pub mod Surrogates
use deep_protocol.Base.{
  ℕ, zero, suc, ◌+◌, ◌*◌, ◌-◌, ◌≤◌, ◌<◌, ◌≡◌, Bool, true, false, not, ◌&&◌, ◌||◌, List, [], ◌∷◌,
  Bytes, length, take, drop, equal, contains, leb, ltb, ◌==◌, within, if◌then◌else◌, Option, none,
  some, Result, ok, err, Error, protocol, out_of_fuel, failure, reverse, reject_if, ◌>>=◌, ◌>>◌,
  codes, String,
}

-- `MaxMetadataSize`
abbrev pub max_metadata_size : ℕ
max_metadata_size = 8192

-- The ranges of the bytes that follow a first byte of UTF-8, or none if it cannot be first.
unfoldable pub utf8_lead : ℕ → Option (List (ℕ × ℕ))
utf8_lead c =
    if ltb c 0x80
    then some []
    else if within 0xc2 0xdf c
    then some ((0x80, 0xbf) ∷ [])
    else if c == 0xe0
    then some ((0xa0, 0xbf) ∷ (0x80, 0xbf) ∷ [])
    else if c == 0xed
    then some ((0x80, 0x9f) ∷ (0x80, 0xbf) ∷ [])
    else if within 0xe1 0xef c
    then some ((0x80, 0xbf) ∷ (0x80, 0xbf) ∷ [])
    else if c == 0xf0
    then some ((0x90, 0xbf) ∷ (0x80, 0xbf) ∷ (0x80, 0xbf) ∷ [])
    else if within 0xf1 0xf3 c
    then some ((0x80, 0xbf) ∷ (0x80, 0xbf) ∷ (0x80, 0xbf) ∷ [])
    else if c == 0xf4
    then some ((0x80, 0x8f) ∷ (0x80, 0xbf) ∷ (0x80, 0xbf) ∷ [])
    else none

-- `utf8.Valid`, with the ranges still to be met.
unfoldable pub utf8_from : List (ℕ × ℕ) → Bytes → Bool
unfolding utf8_lead
utf8_from [] [] = true
utf8_from (r ∷ rs) [] = false
utf8_from [] (c ∷ cs) = elim (utf8_lead c) [ none ↦ false | some rs ↦ utf8_from rs cs ]
utf8_from ((lo, hi) ∷ rs) (c ∷ cs) = within lo hi c && utf8_from rs cs

abbrev pub utf8_valid : Bytes → Bool
utf8_valid = utf8_from []

unfoldable pub hex_digit : ℕ → Option ℕ
hex_digit c =
    if within b'0' b'9' c
    then some (c - b'0')
    else if within b'a' b'f' c
    then some (c - b'a' + 10)
    else if within b'A' b'F' c
    then some (c - b'A' + 10)
    else none

-- `strconv.ParseUint(s, 16, 16)` on the digits `s`, from the value of those in front.
unfoldable pub parse_hex : ℕ → Bytes → Option ℕ
parse_hex acc [] = some acc
parse_hex acc (c ∷ cs) = elim (hex_digit c) [ none ↦ none | some d ↦ parse_hex (acc * 16 + d) cs ]

abbrev pub is_low_surrogate : ℕ → Bool
is_low_surrogate = within 0xdc00 0xdfff

abbrev pub is_high_surrogate : ℕ → Bool
is_high_surrogate = within 0xd800 0xdbff

abbrev pub second_byte_or : ℕ → Bytes → ℕ
second_byte_or d (a ∷ b ∷ cs) = b
second_byte_or d _ = d

abbrev pub first_byte_or : ℕ → Bytes → ℕ
first_byte_or d [] = d
first_byte_or d (c ∷ cs) = c

-- The bytes behind `\uXXXX` where XXXX is a high surrogate: a low one must follow.
unfoldable pub skip_low : Bytes → Result Bytes
skip_low rest =
    if ltb (length rest) 6
      || not (first_byte_or 0 rest == b'\\')
      || not (second_byte_or 0 rest == b'u')
    then err (protocol "unpaired Unicode surrogate")
    else elim (parse_hex 0 (take 4 (drop 2 rest))) [
      | none ↦ err (protocol "unpaired Unicode surrogate")
      | some low ↦
          if is_low_surrogate low
          then ok (drop 6 rest)
          else err (protocol "unpaired Unicode surrogate")
    ]

-- The bytes behind a `\u`.
unfoldable pub skip_unicode : Bytes → Result Bytes
unfolding skip_low
skip_unicode rest =
    if ltb (length rest) 4
    then err (protocol "short Unicode escape")
    else elim (parse_hex 0 (take 4 rest)) [
      | none ↦ err (protocol "invalid Unicode escape")
      | some value ↦
          if is_low_surrogate value
          then err (protocol "unpaired Unicode surrogate")
          else if is_high_surrogate value
          then skip_low (drop 4 rest)
          else ok (drop 4 rest)
    ]

-- The bytes behind a backslash and what it escapes.
unfoldable pub skip_escape : Bytes → Result Bytes
unfolding skip_unicode
skip_escape [] = err (protocol "unfinished JSON escape")
skip_escape (c ∷ rest) = if not (c == b'u') then ok rest else skip_unicode rest

-- The loop over `raw[i:]`, on fuel: each round takes a byte at least.
unfoldable pub scan_surrogates : ℕ → Bool → Bytes → Result (Unit {0})
scan_surrogates fuel quoted [] = ok tt
scan_surrogates zero quoted (c ∷ rest) = err out_of_fuel
scan_surrogates (suc fuel) quoted (c ∷ rest) = elim (c == b'"') [
  | true ↦ scan_surrogates fuel (not quoted) rest
  | false ↦ elim (not quoted || not (c == b'\\')) [
    | true ↦ scan_surrogates fuel quoted rest
    | false ↦ skip_escape rest >>= λ after. scan_surrogates fuel quoted after
  ]
]

unfoldable pub validate_surrogates : Bytes → Result (Unit {0})
unfolding scan_surrogates
validate_surrogates raw = scan_surrogates (length raw) false raw

-- What `json.Decoder.Token` returns: a delimiter, a string (a value or a key), null, or another
-- scalar.
pub data Token : Type 0 where
  open_object close_object open_array close_array : Token
  text : Bytes → Token
  null scalar : Token

pub data Read (S : Type 0) : Type 0 where
  got : Token → S → Read S
  at_end failed : Read S

-- encoding/json. `left` bounds the tokens that a decoder still gives: each takes a byte at least.
-- `fields` is `json.Unmarshal` into a `map[string]json.RawMessage`.
pub record Json : Type 1 where
  pub State : Type 0
  pub start : Bytes → State
  pub token : State → Read State
  pub more : State → Bool
  pub left : State → ℕ
  pub left-start : (raw : Bytes) → left (start raw) ≤ length raw
  pub left-token : (s t : State) (k : Token) → token s ≡ got k t → left t < left s
  pub fields : Bytes → Option (List (Bytes × Bytes))

abbrev pub is_container : Token → Bool
is_container open_object = true
is_container close_object = true
is_container open_array = true
is_container close_array = true
is_container _ = false

unfoldable pub lookup : Bytes → List (Bytes × Bytes) → Option Bytes
lookup k [] = none
lookup k ((j, v) ∷ m) = if equal j k then some v else lookup k m

-- `bytes.TrimSpace` on the spaces that JSON allows around a value.
abbrev pub is_space : ℕ → Bool
is_space c = c == b' ' || c == b'\t' || c == b'\n' || c == b'\r'

module _ (json : Json) where
  open json use {State, start, token, more, fields}

  -- One token, where its absence is an error with this text.
  abbrev next : String → State → Result (Token × State)
  next message s = elim (token s) [
    | got k t ↦ ok (k, t)
    | at_end ↦ err (protocol message)
    | failed ↦ err (protocol message)
  ]

  -- The token that closes a container.
  abbrev closes : Token → Token → Bool
  closes open_object close_object = true
  closes open_array close_array = true
  closes _ _ = false

  abbrev close : Token → String → State → Result State
  close k message s = elim (token s) [
    | got c t ↦ if closes k c then ok t else err (protocol message)
    | at_end ↦ err (protocol message)
    | failed ↦ err (protocol message)
  ]

  abbrev fresh_key : List Bytes → Token → Result Bytes
  fresh_key keys (text key) =
      if contains keys key then err (protocol "duplicate or invalid metadata key") else ok key
  fresh_key keys _ = err (protocol "duplicate or invalid metadata key")

  unfoldable mutual
    -- `walkJSON` behind the token `k`, on fuel; its two loops are `members` and `elements`.
    pub walk : ℕ → Token → ℕ → State → Result State
    walk zero k depth s = err out_of_fuel
    walk (suc fuel) k depth s = elim (is_container k) [
      | false ↦ ok s
      | true ↦ elim (ltb 16 depth) [
        | true ↦ err (protocol "metadata nesting exceeds 16")
        | false ↦ elim k [
          | open_object ↦ members fuel [] depth s
          | open_array ↦ elements fuel depth s
          | _ ↦ err (protocol "unexpected JSON delimiter")
        ]
      ]
    ]

    pub members : ℕ → List Bytes → ℕ → State → Result State
    members zero keys depth s = err out_of_fuel
    members (suc fuel) keys depth s = elim (more s) [
      | false ↦ close open_object "invalid JSON object" s
      | true ↦ do
        (k, s₁) ← next "invalid JSON" s
        key ← fresh_key keys k
        (v, s₂) ← next "invalid JSON" s₁
        s₃ ← walk fuel v (depth + 1) s₂
        members fuel (key ∷ keys) depth s₃
    ]

    pub elements : ℕ → ℕ → State → Result State
    elements zero depth s = err out_of_fuel
    elements (suc fuel) depth s = elim (more s) [
      | false ↦ close open_array "invalid JSON array" s
      | true ↦ do
        (v, s₁) ← next "invalid JSON" s
        s₂ ← walk fuel v (depth + 1) s₁
        elements fuel depth s₂
    ]

  abbrev first_object : Read State → Result State
  first_object (got open_object s) = ok s
  first_object _ = err (protocol "metadata must be a JSON object")

  abbrev nothing_behind : Read State → Result (Unit {0})
  nothing_behind at_end = ok tt
  nothing_behind _ = err (protocol "trailing JSON data")

  unfoldable pub validate_json : Bytes → Result (Unit {0})
  validate_json raw = do
    reject_if (ltb (length raw) 2 || ltb max_metadata_size (length raw) || not (utf8_valid raw))
        (protocol "invalid metadata encoding or size")
    validate_surrogates raw
    s ← first_object (token (start raw))
    t ← walk (2 * length raw) open_object 1 s
    nothing_behind (token t)

  abbrev trim_left : Bytes → Bytes
  trim_left [] = []
  trim_left (c ∷ cs) = if is_space c then trim_left cs else c ∷ cs

  -- `bytes.Equal(bytes.TrimSpace(value), []byte("null"))`
  abbrev is_null : Bytes → Bool
  is_null v = equal (reverse (trim_left (reverse (trim_left v)))) (codes "null")

  abbrev present : Option Bytes → Bool
  present none = false
  present (some v) = not (is_null v)

  unfoldable pub check_fields : List Bytes → List (Bytes × Bytes) → Result (Unit {0})
  unfolding lookup
  check_fields [] object = ok tt
  check_fields (name ∷ names) object =
      if not (present (lookup name object))
      then err (protocol "missing or null metadata field")
      else check_fields names object

  -- A decoder that fails makes an ordinary error of encoding/json.
  abbrev decoded {ℓ} : {A : Type ℓ} → Error → Option A → Result A
  decoded e none = err e
  decoded e (some a) = ok a

  -- `DecodeMetadata(frame, &a, names...)`; `decode` is the strict `Decode` into the type of `a`.
  unfoldable pub decode_metadata {ℓ} :
      {A : Type ℓ} → (Bytes → Option A) → List Bytes → Bytes → Result A
  unfolding validate_json check_fields
  decode_metadata decode names raw = do
    validate_json raw
    object ← decoded (failure "invalid JSON object") (fields raw)
    reject_if (not (length object == length names)) (protocol "missing or unknown metadata fields")
    check_fields names object
    decoded (protocol "invalid metadata types") (decode raw)
