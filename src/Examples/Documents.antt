-- ===== src/Examples/Documents.antt =====
-- A small encoding/json that knows a few documents, and a library of messages on it.
use deep_protocol.Base.{
  String, suc, ◌≡◌, ◌≤◌, ◌<◌, refl, subst, sym, inl, inr, Bool, true, false, List, [], ◌∷◌, Bytes,
  length, codes, equal, contains, equal_iff, if◌then◌else◌, Option, none, some, failure, Result, ok,
  err, arith, Bool-cases, leb, ◌&&◌, ℕ,
}
use deep_protocol.Base.Int.{pos}
use deep_protocol.Json.{
  Json, Token, open_object, close_object, open_array, close_array, text, scalar, Read, got, at_end,
  validate_json, decode_metadata, check_fields, validate_surrogates, scan_surrogates, walk,
  utf8_from,
}
use deep_protocol.Messages.{Library, Codec, EndMetadata, RequestMetadata}
use deep_protocol.Body.Wire.{Encodes, Carries}

abbrev pub empty_document : Bytes
empty_document = codes "{}"

abbrev pub end_document : Bytes
end_document = codes "{\"size\":2,\"sha256\":\"00\"}"

abbrev pub hello_document : Bytes
hello_document = codes "{\"versions\":[2]}"

abbrev pub welcome_document : Bytes
welcome_document = codes "{\"version\":2,\"max_chunk\":65536}"

abbrev pub request_document : Bytes
request_document =
    codes "{\"authority\":\"a.b\",\"path\":\"/\",\"query\":\"\",\"operation\":\"FETCH\"}"

abbrev pub response_document : Bytes
response_document = codes "{\"media_type\":\"text/plain\",\"size\":2}"

-- A text, its tokens and its fields.
pub record Document : Type 0 where
  pub raw : Bytes
  pub spelled : List Token
  pub fields : List (Bytes × Bytes)

abbrev entry : String → Token → List Token → List Token
entry name value rest = text (codes name) ∷ value ∷ rest

abbrev documents : List Document
documents =
    record {
      raw = end_document;
      spelled =
          open_object
          ∷ entry "size" scalar (entry "sha256" (text (codes "00")) (close_object ∷ []));
      fields = (codes "size", codes "2") ∷ (codes "sha256", codes "\"00\"") ∷ [];
    }
    ∷ record {
      raw = hello_document;
      spelled =
          open_object ∷ entry "versions" open_array (scalar ∷ close_array ∷ close_object ∷ []);
      fields = (codes "versions", codes "[2]") ∷ [];
    }
    ∷ record {
      raw = welcome_document;
      spelled = open_object ∷ entry "version" scalar (entry "max_chunk" scalar (close_object ∷ []));
      fields = (codes "version", codes "2") ∷ (codes "max_chunk", codes "65536") ∷ [];
    }
    ∷ record {
      raw = request_document;
      spelled =
          open_object
          ∷ entry "authority" (text (codes "a.b")) (
              entry "path" (text (codes "/")) (
                entry "query" (text [])
                  (entry "operation" (text (codes "FETCH")) (close_object ∷ []))));
      fields =
          (codes "authority", codes "\"a.b\"")
          ∷ (codes "path", codes "\"/\"")
          ∷ (codes "query", codes "\"\"")
          ∷ (codes "operation", codes "\"FETCH\"")
          ∷ [];
    }
    ∷ record {
      raw = response_document;
      spelled =
          open_object
          ∷ entry "media_type" (text (codes "text/plain"))
              (entry "size" scalar (close_object ∷ []));
      fields = (codes "media_type", codes "\"text/plain\"") ∷ (codes "size", codes "2") ∷ [];
    }
    ∷ record { raw = empty_document; spelled = open_object ∷ close_object ∷ []; fields = [] }
    ∷ []

abbrev tokens_in : List Document → Bytes → List Token
tokens_in [] raw = []
tokens_in (d ∷ ds) raw = if equal raw d.raw then d.spelled else tokens_in ds raw

abbrev fields_in : List Document → Bytes → Option (List (Bytes × Bytes))
fields_in [] raw = some []
fields_in (d ∷ ds) raw = if equal raw d.raw then some d.fields else fields_in ds raw

-- No document has more tokens than bytes.
abbrev all_short : List Document → Bool
all_short [] = true
all_short (d ∷ ds) = leb (length d.spelled) (length d.raw) && all_short ds

both : (a b : Bool) → a && b ≡ true → (a ≡ true) × (b ≡ true)
both true b h = (refl, h)
both false b h = cc

le-leb : (m n : ℕ) → leb m n ≡ true → m ≤ n
le-leb m n h = ground arith

pub tokens_in-le :
    (ds : List Document) (raw : Bytes)
    → all_short ds ≡ true
    → length (tokens_in ds raw) ≤ length raw
tokens_in-le [] raw h = omega arith
tokens_in-le (d ∷ ds) raw h =
    let (short, all) = both (leb (length d.spelled) (length d.raw)) (all_short ds) h in
    elim (Bool-cases (equal raw d.raw)) [
      | inl e ↦ rw e (
          subst (λ r. length d.spelled ≤ length r) (sym ((equal_iff raw d.raw).0 e))
            (le-leb (length d.spelled) (length d.raw) short))
      | inr n ↦ rw n (tokens_in-le ds raw all)
    ]

abbrev first_token : List Token → Read (List Token)
first_token [] = at_end
first_token (k ∷ ks) = got k ks

abbrev has_more : List Token → Bool
has_more [] = false
has_more (close_object ∷ ks) = false
has_more (close_array ∷ ks) = false
has_more (k ∷ ks) = true

pub first_token-shorter :
    (s t : List Token) (k : Token) → first_token s ≡ got k t → length t < length s
first_token-shorter [] t k e = absurd (got-ne-end e)
  where
    got-ne-end : at_end ≡ got k t → ⊥
    got-ne-end e = cc
first_token-shorter (j ∷ s) t k e = subst (λ u. length u < suc (length s)) (rest_is e) (omega arith)
  where
    rest_is : got j s ≡ got k t → s ≡ t
    rest_is e = cc

abbrev pub toy_json : Json
toy_json = record {
  State = List Token;
  start = tokens_in documents;
  token = first_token;
  more = has_more;
  left = length;
  left-start = λ raw. tokens_in-le documents raw refl;
  left-token = first_token-shorter;
  fields = fields_in documents;
}

-- What the codec of the empty object takes.
abbrev read_empty : Bytes → Option (Unit {0})
read_empty raw = if equal raw empty_document then some tt else none

abbrev two_bytes : EndMetadata
two_bytes = record { size = pos 2; sha256 = codes "00" }

abbrev read_end : Bytes → Option EndMetadata
read_end raw = if equal raw end_document then some two_bytes else none

-- A codec for the messages that the examples do not carry.
abbrev no_codec {ℓ} : {A : Type ℓ} → (A → Result Bytes) × (Bytes → Option A)
no_codec = (λ a. err (failure "unsupported"), λ raw. none)

abbrev absent : {A : Type 0} → Codec A
absent = record { marshal = no_codec.0; decode = no_codec.1 }

abbrev pub front_page : RequestMetadata
front_page = record {
  authority = codes "a.b";
  path = codes "/";
  query = [];
  operation = codes "FETCH";
}

-- A codec that knows one document.
abbrev pub only : {A : Type 0} → Bytes → A → Codec A
only document a = record {
  marshal = λ _. ok document;
  decode = λ raw. if equal raw document then some a else none;
}

abbrev pub toy : Library
toy = record {
  json = toy_json;
  empty = record { marshal = λ _. ok empty_document; decode = read_empty };
  hello = only hello_document (record { versions = pos 2 ∷ [] });
  welcome = only welcome_document (record { version = pos 2; max_chunk = pos 65536 });
  request = only request_document front_page;
  response = only response_document (record { media_type = codes "text/plain"; size = pos 2 });
  end = record { marshal = λ _. ok end_document; decode = read_end };
  error = record { marshal = λ _. ok empty_document; decode = λ _. none };
  proceed = absent;
  application_request = absent;
  application_response = absent;
  has_hidden = λ _. false;
  sha256 = λ _. codes "00";
}

unfoldable pub empty-Encodes : Encodes toy_json toy.empty [] tt
unfolding decode_metadata validate_json check_fields validate_surrogates scan_surrogates walk
    utf8_from equal contains
empty-Encodes = record { raw = empty_document; marshaled = refl; read_back = refl }

pub end-Encodes : Encodes toy_json toy.end (codes "size" ∷ codes "sha256" ∷ []) two_bytes
unfolding decode_metadata validate_json check_fields validate_surrogates scan_surrogates walk
    utf8_from equal contains
end-Encodes = record { raw = end_document; marshaled = refl; read_back = refl }

pub hi-Carries : Carries toy 1 (codes "hi")
hi-Carries = record {
  id_pos = omega arith;
  id_fits = omega arith;
  empty_encodes = empty-Encodes;
  end_encodes = end-Encodes;
}
