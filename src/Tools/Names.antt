-- ===== src/Tools/Names.antt =====
-- Where a tool's name begins a call in a text: `is_fallback_tool_name_at`,
-- `is_valid_bare_call_prefix_at` and `bare_call_tool_name_end` of crates/server/src/tool_stream.rs.
-- A text with a place in it is the text before the place and the text behind it.
use Prim.Native.String.{◌++◌}
use Prim.Native.Char.{Char, code}
use dreamwell.Common.{
  ℕ, ◌+◌, ◌-◌, ◌<◌, ◌≡◌, refl, ap, ◌∙◌, Bool, true, false, ◌&&◌, ◌||◌, not, Option, none, some,
  String, if◌then◌else◌, arith, opt_map, nat_beq, leb, ◌==◌, string_eq,
}
use dreamwell.Common.Text.{all_chars, is_empty_text}
use dreamwell.Common.Text.Utf8.{
  byte_len, len_utf8, slice_from, slice_from-append_inside, byte_len-append, byte_len-cons,
}

abbrev pub bare_call_prefix : String
bare_call_prefix = "call:"

-- `strip_prefix` of the standard library.
abbrev pub strip_prefix : String → String → Option String
strip_prefix s String.[] = some s
strip_prefix String.[] (String.◌∷◌ d p) = none
strip_prefix (String.◌∷◌ c s) (String.◌∷◌ d p) =
    let rest = strip_prefix s p in if nat_beq (code c) (code d) then rest else none

abbrev pub opens_brace : String → Bool
opens_brace String.[] = false
opens_brace (String.◌∷◌ c s) = nat_beq (code c) b'{'

-- The tests behind that of the name, with the text behind the name.
abbrev pub called_at : String → Option String → Option Bool
called_at pre none = some false
called_at pre (some after_name) =
    let called = is_empty_text after_name || opens_brace after_name in
    if leb 5 (byte_len pre)
    then opt_map (λ last. if last == bare_call_prefix then false else called)
        (slice_from (byte_len pre - 5) pre)
    else some called

-- `none` is the panic of the slice `[idx - 5..idx]`.
unfoldable pub is_fallback_tool_name_at : String → String → String → Option Bool
is_fallback_tool_name_at pre behind name = called_at pre (strip_prefix behind name)

abbrev pub is_name_char : ℕ → Bool
is_name_char c =
    (leb b'0' c && leb c b'9')
    || ((leb b'A' c && leb c b'Z')
        || ((leb b'a' c && leb c b'z') || (nat_beq c b'_' || nat_beq c b'-')))

-- The name at the front, up to `bare_call_tool_name_end`, and the text behind it.
abbrev pub split_name : String → String × String
split_name String.[] = ("", "")
split_name (String.◌∷◌ c s) =
    let rest = split_name s in
    if is_name_char (code c) then (String.◌∷◌ c rest.0, rest.1) else ("", String.◌∷◌ c s)

abbrev pub bare_call_tool_name_end : String → ℕ
unfolding byte_len
bare_call_tool_name_end rest = byte_len (split_name rest).0

abbrev pub ends_with_re : String → Bool
unfolding slice_from byte_len
ends_with_re pre = elim (slice_from (byte_len pre - 2) pre) [
  | none ↦ false
  | some last ↦ last == "re"
]

unfoldable pub is_valid_bare_call_prefix_at : String → String → Bool
unfolding byte_len slice_from
is_valid_bare_call_prefix_at pre behind = elim (strip_prefix behind bare_call_prefix) [
  | none ↦ false
  | some rest ↦
      let (name, after_name) = split_name rest in
      if leb 2 (byte_len pre) && ends_with_re pre
      then false
      else if nat_beq (bare_call_tool_name_end rest) 0
      then true
      else if not (all_chars is_name_char name)
      then false
      else is_empty_text after_name || opens_brace after_name
]

-- The test of a known tool's name panics where a character lies across the fifth byte before
-- the name.
pub is_fallback_tool_name_at-none :
    (a : String) (c : Char) (b behind name after_name : String)
    → strip_prefix behind name ≡ some after_name
    → byte_len b < 5
    → 5 < byte_len b + len_utf8 (code c)
    → is_fallback_tool_name_at (a ++ String.◌∷◌ c b) behind name ≡ none
unfolding is_fallback_tool_name_at
is_fallback_tool_name_at-none a c b behind name after_name h low high =
    let text : String = a ++ String.◌∷◌ c b in
    let size : byte_len text ≡ byte_len a + (len_utf8 (code c) + byte_len b) =
      byte_len-append a (String.◌∷◌ c b) ∙ ap (λ n. byte_len a + n) (byte_len-cons c b) in
    let far : leb 5 (byte_len text) ≡ true = ground arith in
    let inside : slice_from (byte_len text - 5) text ≡ none =
      slice_from-append_inside (byte_len text - 5) a c b (omega arith) (omega arith) in
    rw (h, far, inside) refl
