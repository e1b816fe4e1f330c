-- ===== src/Config/Values.antt =====
-- internal/domain/models.go: the checks of single values, and how checks are chained. Go's `error`
-- is an `Option Text`, `none` for nil. The regular expressions are written out as tests of bytes.
use proxystack_go.Prelude.{
  ℕ, zero, suc, ℕ_eq, Text, Text_eq, codes, ltb, leb, nat_eq, decimal, is_empty, length, has_prefix,
  if◌then◌else◌, Bool, true, false, not, ◌&&◌, ◌||◌, ◌==◌, contains, add, List, [], ◌∷◌, ◌++◌,
  Option, none, some,
}
use proxystack_go.Graph.References.{split_dots, has_empty}

-- `if err := first; err != nil { return err }` before the rest.
infixr 20 ◌then◌
unfoldable pub ◌then◌ : Option Text → Option Text → Option Text
none then rest = rest
some e then rest = some e

-- `if refused { return error }`, and nil after it.
unfoldable pub refuse_if : Bool → Text → Option Text
refuse_if refused message = if refused then some message else none

abbrev between : ℕ → ℕ → ℕ → Bool
between low high c = leb low c && leb c high

unfoldable pub is_word_byte : ℕ → Bool
is_word_byte c = between b'A' b'Z' c || between b'a' b'z' c || between b'0' b'9' c || nat_eq c b'_'

unfoldable pub are_identifier_bytes : Text → Bool
are_identifier_bytes [] = true
are_identifier_bytes (c ∷ s) =
    (is_word_byte c || nat_eq c b'.' || nat_eq c b'-') && are_identifier_bytes s

-- identifierPattern: ^[A-Za-z0-9_][A-Za-z0-9_.-]*$
unfoldable pub matches_identifier : Text → Bool
matches_identifier [] = false
matches_identifier (c ∷ s) = is_word_byte c && are_identifier_bytes s

-- regionPattern: ^[A-Z]{2}$
unfoldable pub matches_region : Text → Bool
matches_region (c ∷ d ∷ []) = between b'A' b'Z' c && between b'A' b'Z' d
matches_region _ = false

-- One class of bytes for each byte of the text.
unfoldable pub matches_classes : List (ℕ → Bool) → Text → Bool
matches_classes [] [] = true
matches_classes (p ∷ ps) (c ∷ s) = p c && matches_classes ps s
matches_classes _ _ = false

is_hex : ℕ → Bool
is_hex c = between b'0' b'9' c || between b'a' b'f' c || between b'A' b'F' c

hex_digits : ℕ → List (ℕ → Bool) → List (ℕ → Bool)
unfolding is_hex
hex_digits zero classes = classes
hex_digits (suc n) classes = is_hex ∷ hex_digits n classes

-- uuidPattern
unfoldable pub matches_uuid : Text → Bool
unfolding hex_digits
matches_uuid s =
    matches_classes
      (hex_digits 8 (
        nat_eq b'-'
        ∷ hex_digits 4 (
            nat_eq b'-'
            ∷ between b'1' b'5'
            ∷ hex_digits 3 (
                nat_eq b'-'
                ∷ (λ c. contains (codes "89abAB") c)
                ∷ hex_digits 3 (nat_eq b'-' ∷ hex_digits 12 [])))))
      s

unfoldable pub validate_identifier : Text → Text → Option Text
validate_identifier value label =
    refuse_if
      (not (matches_identifier value)
        || has_prefix value (codes ".")
        || has_prefix value (codes "-"))
      (label ++ codes " contains invalid characters")

unfoldable pub validate_port : ℕ → Text → Option Text
validate_port port label =
    refuse_if (ltb port 1 || ltb 65535 port) (label ++ codes " must be between 1 and 65535")

unfoldable pub validate_ref : Text → ℕ → Text → Option Text
validate_ref value segment_count message =
    if is_empty value
    then some message
    else (let parts = split_dots value in
        if not (nat_eq (length parts) segment_count)
        then some
            (codes "ref must contain " ++ decimal segment_count ++ codes " dot-separated segments")
        else refuse_if (has_empty parts) (codes "ref must not contain empty segments"))

-- The loop of ensureUnique, with `seen`.
unfoldable pub first_repeated : List Text → List Text → Text → Option Text
first_repeated seen [] message = none
first_repeated seen (value ∷ values) message =
    let rest = first_repeated (add value seen) values message in
    if contains seen value then some (message ++ codes ": " ++ value) else rest

unfoldable pub ensure_unique : List Text → Text → Option Text
ensure_unique values message = first_repeated [] values message

unfoldable pub valid_inbound_protocol : Text → Bool
valid_inbound_protocol protocol =
    contains (codes "vmess" ∷ codes "shadowsocks" ∷ codes "socks5" ∷ codes "http" ∷ []) protocol

unfoldable pub supports_inbound_udp_protocol : Text → Bool
supports_inbound_udp_protocol protocol =
    contains (codes "vmess" ∷ codes "shadowsocks" ∷ codes "socks5" ∷ []) protocol

unfoldable pub valid_xray_log_level : Text → Bool
valid_xray_log_level level =
    contains (codes "debug" ∷ codes "info" ∷ codes "warning" ∷ codes "error" ∷ codes "none" ∷ [])
      level

unfoldable pub shadowsocks2022_key_length : Text → Option ℕ
shadowsocks2022_key_length method =
    if method == codes "2022-blake3-aes-128-gcm"
    then some 16
    else if method == codes "2022-blake3-aes-256-gcm"
        || method == codes "2022-blake3-chacha20-poly1305"
    then some 32
    else none

-- A key of the map.
unfoldable pub is_shadowsocks2022_method : Text → Bool
is_shadowsocks2022_method method = elim (shadowsocks2022_key_length method) [
  | none ↦ false
  | some n ↦ true
]

-- `decode` is base64.StdEncoding.Strict().DecodeString. A missing key of the map reads as 0.
unfoldable pub validate_shadowsocks2022_psk :
    (Text → Option Text) → Text → Text → Text → Option Text
validate_shadowsocks2022_psk decode value method label =
    let expected : ℕ = elim (shadowsocks2022_key_length method) [ none ↦ 0 | some n ↦ n ] in
    elim (decode value) [
      | none ↦ some (label ++ codes " must be a base64-encoded PSK for " ++ method)
      | some decoded ↦
          refuse_if (not (nat_eq (length decoded) expected))
            (label ++ codes " must decode to " ++ decimal expected ++ codes " bytes for " ++ method)
    ]
