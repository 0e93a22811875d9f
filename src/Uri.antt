-- ===== src/Uri.antt =====
-- uri.go: DEEP URIs, authorities, resource paths and their percent-encoded components.
-- A Go string is its list of bytes. The texts of errors leave out the byte index they quote.
pub mod Chars
pub mod Authority
pub mod Parse
pub mod Labels
pub mod Components
pub mod Canonical
use deep_protocol.Base.{
  ℕ, ◌+◌, Bool, true, false, not, ◌&&◌, ◌||◌, List, [], ◌∷◌, map, Bytes, codes, length, take, drop,
  all, equal, leb, ltb, ◌==◌, within, if◌then◌else◌, Result, ok, err, failure, reject_if, ◌>>=◌,
  ◌>>◌,
}

pub record Uri : Type 0 where
  pub authority : Bytes
  pub node : Bytes
  pub network : Bytes
  pub path : Bytes
  pub query : Bytes
  pub fragment : Bytes

abbrev pub max_uri_length : ℕ
max_uri_length = 4096

unfoldable pub is_lower_alnum : ℕ → Bool
is_lower_alnum c = within b'a' b'z' c || within b'0' b'9' c

unfoldable pub is_hex : ℕ → Bool
is_hex c = within b'0' b'9' c || within b'a' b'f' c || within b'A' b'F' c

-- `label[len(label)-1]` of the label `c ∷ cs`.
abbrev pub last_byte : ℕ → Bytes → ℕ
last_byte c [] = c
last_byte c (d ∷ cs) = last_byte d cs

abbrev pub is_label_byte : ℕ → Bool
is_label_byte c = is_lower_alnum c || c == b'-'

unfoldable pub valid_label : Bytes → Bool
unfolding is_lower_alnum
valid_label [] = false
valid_label (c ∷ cs) =
    if ltb 63 (length (c ∷ cs)) || not (is_lower_alnum c) || not (is_lower_alnum (last_byte c cs))
    then false
    else all is_label_byte (c ∷ cs)

-- `strings.ReplaceAll(label, "_", "-")`, byte by byte.
abbrev pub dash_byte : ℕ → ℕ
dash_byte c = if c == b'_' then b'-' else c

unfoldable pub valid_node_label : Bytes → Bool
unfolding valid_label
valid_node_label label = valid_label (map dash_byte label)

abbrev pub onto_head : ℕ → List Bytes → List Bytes
onto_head c [] = (c ∷ []) ∷ []
onto_head c (p ∷ ps) = (c ∷ p) ∷ ps

-- `strings.Split(s, ".")`
unfoldable pub split_dots : Bytes → List Bytes
split_dots [] = [] ∷ []
split_dots (c ∷ cs) =
    let parts = split_dots cs in if c == b'.' then [] ∷ parts else onto_head c parts

abbrev pub check_labels : List Bytes → Result (Unit {0})
check_labels (node ∷ network ∷ []) =
    reject_if (not (valid_node_label node) || not (valid_label network))
      (failure "authority must be canonical lowercase node.network (two ASCII labels)")
check_labels _ =
    err (failure "authority must be canonical lowercase node.network (two ASCII labels)")

unfoldable pub validate_authority : Bytes → Result (Unit {0})
unfolding split_dots valid_node_label valid_label
validate_authority authority = check_labels (split_dots authority)

abbrev pub is_forbidden : ℕ → Bool
is_forbidden c = leb c b' ' || leb 0x7f c || c == b'\\'

unfoldable pub validate_ascii : Bytes → Result (Unit {0})
validate_ascii [] = ok tt
validate_ascii (c ∷ cs) =
    if is_forbidden c then err (failure "URI contains a forbidden character") else validate_ascii cs

-- `strings.ContainsRune` for an ASCII byte.
unfoldable pub has_byte : Bytes → ℕ → Bool
has_byte [] c = false
has_byte (b ∷ bs) c = b == c || has_byte bs c

unfoldable pub is_plain : Bool → ℕ → Bool
unfolding is_lower_alnum has_byte
is_plain question c =
    is_lower_alnum c
    || within b'A' b'Z' c
    || has_byte (codes "-._~!$&'()*+,;=:@/") c
    || question && c == b'?'

unfoldable pub validate_component : Bool → Bytes → Result (Unit {0})
validate_component question [] = ok tt
validate_component question (c ∷ []) =
    if c == b'%'
    then err (failure "invalid percent escape")
    else if is_plain question c
    then ok tt
    else err (failure "forbidden character")
validate_component question (c ∷ d ∷ []) = elim (c == b'%') [
  | true ↦ err (failure "invalid percent escape")
  | false ↦ elim (is_plain question c) [
    | true ↦ validate_component question (d ∷ [])
    | false ↦ err (failure "forbidden character")
  ]
]
validate_component question (c ∷ d ∷ e ∷ rest) = elim (c == b'%') [
  | true ↦ elim (is_hex d && is_hex e) [
    | true ↦ validate_component question rest
    | false ↦ err (failure "invalid percent escape")
  ]
  | false ↦ elim (is_plain question c) [
    | true ↦ validate_component question (d ∷ e ∷ rest)
    | false ↦ err (failure "forbidden character")
  ]
]

abbrev pub starts_with_slash : Bytes → Bool
starts_with_slash [] = false
starts_with_slash (c ∷ cs) = c == b'/'

-- The `?` that joins a query to its path counts too.
abbrev pub query_length : Bytes → ℕ
query_length [] = 0
query_length (c ∷ cs) = 1 + length (c ∷ cs)

unfoldable pub validate_resource : Bytes → Bytes → Result (Unit {0})
validate_resource path query = do
  reject_if (not (starts_with_slash path)) (failure "resource path must start with /")
  reject_if (ltb max_uri_length (length path + query_length query))
      (failure "resource exceeds 4096 bytes")
  validate_component false path
  validate_component true query

-- `s[:i]` and `s[i:]` for the first index `i` at which `stop` holds, or `len(s)`.
unfoldable pub before : (ℕ → Bool) → Bytes → Bytes
before stop [] = []
before stop (c ∷ cs) = if stop c then [] else c ∷ before stop cs

unfoldable pub from : (ℕ → Bool) → Bytes → Bytes
from stop [] = []
from stop (c ∷ cs) = if stop c then c ∷ cs else from stop cs

-- `s[index+1:]` behind the mark; empty where there is none.
abbrev pub behind_mark : Bytes → Bytes
behind_mark [] = []
behind_mark (c ∷ cs) = cs

-- `strings.IndexAny(rest, "/?#")`
abbrev pub ends_authority : ℕ → Bool
ends_authority c = c == b'/' || c == b'?' || c == b'#'

abbrev pub is_hash : ℕ → Bool
is_hash c = c == b'#'

abbrev pub is_question : ℕ → Bool
is_question c = c == b'?'

-- `strings.ToLower` on ASCII bytes, and with it `strings.EqualFold`.
unfoldable pub to_lower : ℕ → ℕ
to_lower c = if within b'A' b'Z' c then c + 32 else c

abbrev pub scheme : Bytes
scheme = codes "deep://"

abbrev pub first_part : List Bytes → Bytes
first_part [] = []
first_part (p ∷ ps) = p

abbrev pub second_part : List Bytes → Bytes
second_part (p ∷ q ∷ ps) = q
second_part _ = []

abbrev pub or_root : Bytes → Bytes
or_root [] = b'/' ∷ []
or_root (c ∷ cs) = c ∷ cs

-- What `ParseURI` does behind the authority. With no `#` the fragment is empty, and an empty
-- fragment passes the check that the source then skips; likewise with no `?`.
unfoldable pub parse_tail : Bytes → Bytes → Result Uri
parse_tail authority rest = do
  let fragment = behind_mark (from is_hash rest)
  let resource = before is_hash rest
  validate_component true fragment
  let query = behind_mark (from is_question resource)
  let path = or_root (before is_question resource)
  validate_resource path query
  ok (record {
    authority = authority;
    node = first_part (split_dots authority);
    network = second_part (split_dots authority);
    path = path;
    query = query;
    fragment = fragment;
  })

unfoldable pub parse_uri : Bytes → Result Uri
parse_uri raw = do
  reject_if (length raw == 0 || ltb max_uri_length (length raw))
      (failure "DEEP URI must contain 1 to 4096 ASCII bytes")
  validate_ascii raw
  reject_if (ltb (length raw) (length scheme) || not (equal (map to_lower (take 7 raw)) scheme))
      (failure "DEEP URI must start with deep://")
  let rest = drop 7 raw
  let authority = map to_lower (before ends_authority rest)
  validate_authority authority
  parse_tail authority (from ends_authority rest)
