-- ===== src/Summary/Marker.antt =====
-- The marker that shows a summary in the chat: `format_summary_marker`, `parse_summary_marker_count` and the
-- functions over the markers of crates/server/src/summarize.rs.
use Prim.Native.String.{◌++◌}
use Prim.Native.Char.{Char, code}
use text.Mathlib.TextLemmas.{nil-append, cons-append, append_assoc}
use dreamwell.Common.{
  ℕ, ◌+◌, ◌<◌, ◌≡◌, refl, sym, ap, ◌∙◌, inl, inr, Bool, true, false, ◌&&◌, not, ltb, nat_beq,
  Option, none, some, String, if◌then◌else◌, arith, opt_map, and_then, string_eq, Option-cases,
}
use dreamwell.Common.Int.{int_eq}
use dreamwell.Common.Decimal.{show_ℕ}
use dreamwell.Common.Text.{is_empty_text, all_chars, trim, digits_from, is_digit}
use dreamwell.Common.Text.Laws.{no_space, trim_plain, all_chars_mono}
use dreamwell.Common.Text.Numbers.{digits_from-show_ℕ, digits_from-all_chars, show_ℕ-nonempty}
use dreamwell.Common.Text.Utf8.{
  byte_len, byte_len-append, byte_len-cons, len_utf8, slice_to, slice_to-append_inside,
}

abbrev pub summarize_placeholder : String
summarize_placeholder = "Summarizing earlier messages…"

-- `starts_with`, and `find` as the text in front of what is found.
abbrev pub starts_with : String → String → Bool
starts_with s String.[] = true
starts_with String.[] (String.◌∷◌ d p) = false
starts_with (String.◌∷◌ c s) (String.◌∷◌ d p) = nat_beq (code c) (code d) && starts_with s p

abbrev pub before : String → String → Option String
before word String.[] = if is_empty_text word then some "" else none
before word (String.◌∷◌ c s) =
    let later = opt_map (String.◌∷◌ c) (before word s) in
    if starts_with (String.◌∷◌ c s) word then some "" else later

-- The text behind the first `(`.
abbrev pub after_open : String → Option String
after_open String.[] = none
after_open (String.◌∷◌ c s) =
    let later = after_open s in if nat_beq (code c) b'(' then some s else later

-- `usize::from_str` of 64 bits.
abbrev pub parse_usize_digits : String → Option ℕ
parse_usize_digits s =
    if is_empty_text s
    then none
    else and_then (digits_from 0 s) (λ n. if ltb n 18446744073709551616 then some n else none)

unfoldable pub parse_usize : String → Option ℕ
parse_usize String.[] = none
parse_usize (String.◌∷◌ c s) =
    if nat_beq (code c) 43 then parse_usize_digits s else parse_usize_digits (String.◌∷◌ c s)

-- The slices end where the words were found; the second search starts at the `(`, which the word
-- does not begin with.
unfoldable pub parse_summary_marker_count : String → Option ℕ
unfolding parse_usize
parse_summary_marker_count body =
    and_then (after_open body)
      (λ rest. and_then (before " messages)" rest) (λ s. parse_usize (trim s)))

abbrev pub marker_end : String
marker_end =
    "\n\n_The full summary is included in the model's context for future replies. Earlier messages remain visible in the chat._"

-- `none` is the panic of the slice `summary[..600]`.
abbrev pub preview : String → Option String
preview summary =
    if ltb 600 (byte_len summary)
    then opt_map (λ s. s ++ "…") (slice_to 600 summary)
    else some summary

unfoldable pub format_summary_marker : ℕ → String → Option String
format_summary_marker summarized_count summary =
    opt_map
      (λ shown.
        "**Earlier conversation summarized** ("
        ++ (show_ℕ summarized_count ++ (" messages)" ++ ("\n\n" ++ (shown ++ marker_end)))))
      (preview summary)

-- The marker panics where a character of more than one byte lies across byte 600 of the summary.
pub format_summary_marker-none :
    (count : ℕ) (summary a : String) (c : Char) (b : String)
    → summary ≡ a ++ String.◌∷◌ c b
    → byte_len a < 600
    → 600 < byte_len a + len_utf8 (code c)
    → format_summary_marker count summary ≡ none
unfolding format_summary_marker
format_summary_marker-none count summary a c b e h k =
    let long : ltb 600 (byte_len summary) ≡ true =
      ground (arith, ap byte_len e, byte_len-append a (String.◌∷◌ c b), byte_len-cons c b) in
    rw (long, e, slice_to-append_inside 600 a c b h k) refl

parse_usize-digits :
    (n : ℕ) (s : String)
    → digits_from 0 s ≡ some n
    → is_empty_text s ≡ false
    → n < 18446744073709551616
    → parse_usize s ≡ some n
unfolding parse_usize
parse_usize-digits n String.[] h k l = absurd (ground arith)
parse_usize-digits n (String.◌∷◌ c s) h k l =
    let digit_first : is_digit (code c) ≡ true = ground arith in
    let plus : nat_beq (code c) 43 ≡ false = ground arith in rw (plus, h) (ground arith)

starts_with-append : (p t : String) → starts_with (p ++ t) p ≡ true
starts_with-append String.[] String.[] = refl
starts_with-append String.[] (String.◌∷◌ c t) = refl
starts_with-append (String.◌∷◌ d p) t =
    rw (cons-append d p t) (ground (arith, starts_with-append p t))

before_here : (c : Char) (w t : String) → before (String.◌∷◌ c w) (String.◌∷◌ c w ++ t) ≡ some ""
before_here c w t = rw (cons-append c w t) (ground (arith, starts_with-append w t))

after_open-append :
    (p t : String)
    → all_chars (λ c. not (nat_beq c b'(')) p ≡ true
    → after_open (p ++ ("(" ++ t)) ≡ some t
after_open-append String.[] t h =
    rw (nil-append ("(" ++ t), cons-append "(" "" t, nil-append t) refl
after_open-append (String.◌∷◌ c p) t h =
    let other : nat_beq (code c) b'(' ≡ false = ground arith in
    let rest : all_chars (λ c. not (nat_beq c b'(')) p ≡ true = ground arith in
    rw (cons-append c p ("(" ++ t), other) (after_open-append p t rest)

-- A word that begins with a space is found behind a text without spaces.
before-digits :
    (s t : String)
    → all_chars is_digit s ≡ true
    → before " messages)" (s ++ (" messages)" ++ t)) ≡ some s
before-digits String.[] t h = rw (nil-append (" messages)" ++ t)) (before_here " " "messages)" t)
before-digits (String.◌∷◌ c s) t h =
    let digit_first : is_digit (code c) ≡ true = ground arith in
    let rest : all_chars is_digit s ≡ true = ground arith in
    let other : nat_beq (code c) 32 ≡ false = ground arith in
    rw (cons-append c s (" messages)" ++ t), other, before-digits s t rest) refl

abbrev marker_text : ℕ → String → String
marker_text count shown =
    "**Earlier conversation summarized** ("
    ++ (show_ℕ count ++ (" messages)" ++ ("\n\n" ++ (shown ++ marker_end))))

parse-marker_text :
    (count : ℕ) (shown : String)
    → count < 18446744073709551616
    → parse_summary_marker_count (marker_text count shown) ≡ some count
unfolding parse_summary_marker_count
parse-marker_text count shown h =
    let rest = "\n\n" ++ (shown ++ marker_end) in
    let written = digits_from-show_ℕ count in
    let digits = digits_from-all_chars 0 count (show_ℕ count) written in
    let opened : after_open (marker_text count shown)
        ≡ some (show_ℕ count ++ (" messages)" ++ rest)) =
      ap after_open (
        append_assoc "**Earlier conversation summarized** " "("
          (show_ℕ count ++ (" messages)" ++ rest)))
      ∙ after_open-append "**Earlier conversation summarized** "
          (show_ℕ count ++ (" messages)" ++ rest)) refl in
    rw
      (
        opened,
        before-digits (show_ℕ count) rest digits,
        trim_plain (show_ℕ count)
            (all_chars_mono is_digit no_space (show_ℕ count) (λ c k. ground arith) digits),
      )
      (parse_usize-digits count (show_ℕ count) written (show_ℕ-nonempty count) h)

-- The count of a marker is read back, if it fits 64 bits.
pub parse-format_summary_marker :
    (count : ℕ) (summary body : String)
    → count < 18446744073709551616
    → format_summary_marker count summary ≡ some body
    → parse_summary_marker_count body ≡ some count
unfolding format_summary_marker
parse-format_summary_marker count summary body h e = elim (Option-cases (preview summary)) [
  | inl bad ↦ let gone : none ≡ some body = rw bad at e in absurd (cc)
  | inr (shown, good) ↦
      let made : some (marker_text count shown) ≡ some body = rw good at e in
      let text : marker_text count shown ≡ body = cc in
      ap parse_summary_marker_count (sym text) ∙ parse-marker_text count shown h
]
