-- ===== src/Client/Router/Paths.antt =====
-- Paths as segments: what `parse_path` splits is what a path was put together of.
use Prim.Native.String.{◌++◌}
use text.Mathlib.TextLemmas.{nil-append, cons-append, append-nil}
use dreamwell.Common.{
  ℕ, ◌≡◌, refl, ap, ◌∙◌, Bool, true, false, ◌&&◌, not, List, [], ◌∷◌, String, nat_beq, keep, All,
  arith,
}
use dreamwell.Common.Int.{ℤ}
use dreamwell.Common.Decimal.{show_ℤ}
use dreamwell.Common.Text.{all_chars, is_empty_text, trim, split_at, nonempty}
use dreamwell.Client.Router.Parse.{parse_path, parse_segments}
use dreamwell.Common.Text.Laws.{
  all_chars-append, all_chars_mono, no_space, trim_plain, split_at-append, is_empty_text-append,
}
use dreamwell.Common.Text.Numbers.{show_ℤ-all_chars, show_ℤ-nonempty}

-- Neither a space nor a slash.
abbrev pub segment_char : ℕ → Bool
segment_char c = no_space c && not (nat_beq c b'/')

-- A segment that the split gives back.
abbrev pub IsSegment : String → Type 0
IsSegment s = (all_chars segment_char s ≡ true) × (is_empty_text s ≡ false)

-- The path of segments, each after a slash.
abbrev pub path_of : List String → String
path_of [] = ""
path_of (s ∷ segments) = "/" ++ (s ++ path_of segments)

segment-no_space : (s : String) → all_chars segment_char s ≡ true → all_chars no_space s ≡ true
segment-no_space s h = all_chars_mono segment_char no_space s (λ c k. ground arith) h

segment-no_slash :
    (s : String) → all_chars segment_char s ≡ true → all_chars (λ c. not (nat_beq c b'/')) s ≡ true
segment-no_slash s h =
    all_chars_mono segment_char (λ c. not (nat_beq c b'/')) s (λ c k. ground arith) h

path_of-cons :
    (s : String) (segments : List String)
    → path_of (s ∷ segments) ≡ String.◌∷◌ "/" (s ++ path_of segments)
path_of-cons s segments =
    cons-append "/" "" (s ++ path_of segments)
    ∙ ap (String.◌∷◌ "/") (nil-append (s ++ path_of segments))

path_of-no_space :
    (segments : List String) → All IsSegment segments → all_chars no_space (path_of segments) ≡ true
path_of-no_space [] h = refl
path_of-no_space (s ∷ segments) h =
    let step : all_chars no_space (s ++ path_of segments) ≡ true =
      all_chars-append no_space s (path_of segments)
      ∙ rw (segment-no_space s h.0.0) (path_of-no_space segments h.1) in
    all_chars-append no_space "/" (s ++ path_of segments) ∙ rw step refl

split_at-path_of :
    (segments : List String)
    → All IsSegment segments
    → split_at b'/' (path_of segments) ≡ ("", segments)
split_at-path_of [] h = refl
split_at-path_of (s ∷ segments) h =
    let rest : split_at b'/' (s ++ path_of segments) ≡ (s, segments) =
      split_at-append b'/' s (path_of segments) (segment-no_slash s h.0.0)
      ∙ rw (split_at-path_of segments h.1, append-nil s) refl in
    rw (path_of-cons s segments, rest) refl

split_at-path :
    (s : String) (segments : List String)
    → All IsSegment (s ∷ segments)
    → split_at b'/' (s ++ path_of segments) ≡ (s, segments)
split_at-path s segments h =
    split_at-append b'/' s (path_of segments) (segment-no_slash s h.0.0)
    ∙ rw (split_at-path_of segments h.1, append-nil s) refl

keep-segments :
    (segments : List String) → All IsSegment segments → keep nonempty segments ≡ segments
keep-segments [] h = refl
keep-segments (s ∷ segments) h = rw (h.0.1, keep-segments segments h.1) refl

pub show_ℤ-IsSegment : (z : ℤ) → IsSegment (show_ℤ z)
show_ℤ-IsSegment z = (show_ℤ-all_chars segment_char z refl (λ c h. ground arith), show_ℤ-nonempty z)

-- What `parse_path` makes of a path of segments before it looks at them.
pub parse_path-path_of :
    (s : String) (segments : List String)
    → All IsSegment (s ∷ segments)
    → parse_path (path_of (s ∷ segments)) ≡ parse_segments (s ∷ segments)
unfolding parse_path
parse_path-path_of s segments h =
    let whole : trim (path_of (s ∷ segments)) ≡ path_of (s ∷ segments) =
      trim_plain _ (path_of-no_space (s ∷ segments) h) in
    let pieces : split_at b'/' (s ++ path_of segments) ≡ (s, segments) =
      split_at-path s segments h in
    rw (whole, path_of-cons s segments, is_empty_text-append s (path_of segments) h.0.1, pieces)
      (ap parse_segments (keep-segments (s ∷ segments) h))
