-- ===== src/Inference/Notice.antt =====
-- The errors of the server and the notice of a fallback: crates/server/src/error.rs and model_fallback.rs.
use Prim.Native.String.{◌++◌}
use Prim.Native.Char.{Char, code}
use dreamwell.Common.{
  ◌+◌, ◌<◌, ◌≡◌, refl, ap, Bool, true, false, Option, none, some, String, if◌then◌else◌, ltb, arith,
  opt_map, Bool-cases, inl, inr,
}
use dreamwell.Common.Text.{all_chars}
use dreamwell.Common.Text.Utf8.{
  byte_len, byte_len-append, byte_len-cons, len_utf8, slice_to, slice_to-append_inside,
  slice_to_ascii,
}

-- The last four are errors of libraries, by their text.
pub data AppError : Type 0 where
  bad_request not_found inference internal sqlx migrate reqwest json : String → AppError

abbrev pub to_string : AppError → String
to_string (bad_request s) = s
to_string (not_found s) = s
to_string (inference s) = s
to_string (internal s) = s
to_string (sqlx s) = s
to_string (migrate s) = s
to_string (reqwest s) = s
to_string (json s) = s

abbrev pub is_fallback_eligible : AppError → Bool
is_fallback_eligible (inference s) = true
is_fallback_eligible err = false

-- `none` is the panic of the slice `full[..160]`.
unfoldable pub short_error : AppError → Option String
short_error err =
    if ltb 160 (byte_len (to_string err))
    then opt_map (λ s. s ++ "…") (slice_to 160 (to_string err))
    else some (to_string err)

unfoldable pub fallback_notice : String → String → AppError → Option String
unfolding short_error
fallback_notice from to err =
    opt_map
      (λ error.
        "Provider \"" ++ (from ++ ("\" failed (" ++ (error ++ ("); trying \"" ++ (to ++ "\"…"))))))
      (short_error err)

-- The notice panics where a character of more than one byte lies across byte 160 of the error.
pub fallback_notice-none :
    (from to : String) (err : AppError) (a : String) (c : Char) (b : String)
    → to_string err ≡ a ++ String.◌∷◌ c b
    → byte_len a < 160
    → 160 < byte_len a + len_utf8 (code c)
    → fallback_notice from to err ≡ none
unfolding fallback_notice
fallback_notice-none from to err a c b e h k =
    let long : ltb 160 (byte_len (to_string err)) ≡ true =
      ground (arith, ap byte_len e, byte_len-append a (String.◌∷◌ c b), byte_len-cons c b) in
    rw (long, e, slice_to-append_inside 160 a c b h k) refl

-- An error of one-byte characters has a notice.
pub fallback_notice_ascii :
    (from to : String) (err : AppError)
    → all_chars (λ c. ltb c 128) (to_string err) ≡ true
    → (notice : String) × (fallback_notice from to err ≡ some notice)
unfolding fallback_notice
fallback_notice_ascii from to err h = elim (Bool-cases (ltb 160 (byte_len (to_string err)))) [
  | inl long ↦
      let (t, e, l) = slice_to_ascii 160 (to_string err) h (ground arith) in rw (long, e) (_, refl)
  | inr short ↦ rw short (_, refl)
]
