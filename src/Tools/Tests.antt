-- ===== src/Tools/Tests.antt =====
-- The functions on tool calls at short texts.
use Prim.Native.String.{◌++◌}
use Prim.Native.Char.{Char, code}
use dreamwell.Common.{◌+◌, ◌≤◌, ◌≡◌, ◌≢◌, refl, false, Option, none, some, String, arith, unwrap_or}
use dreamwell.Common.Text.Utf8.{byte_len, slice_to, slice_from}
use dreamwell.Tools.Braces.{balanced_content, balanced_content_lem, level}
use dreamwell.Tools.Holdback.{emit_prose_holdback, boundary_before, emit_prose_holdback_lem}
use dreamwell.Tools.Names.{
  is_fallback_tool_name_at, is_fallback_tool_name_at-none, is_valid_bare_call_prefix_at,
}

balanced_content_lem_example :
    (c d : Char) × (rest : String) × (code c ≡ b'{')
    × (code d ≡ b'}')
    × ("{a:{b:1}} then" ≡ String.◌∷◌ c ("a:{b:1}" ++ String.◌∷◌ d rest))
    × (level b'{' b'}' 0 "a:{b:1}" ≡ some 0)
    × (9 ≡ byte_len "a:{b:1}" + 2)
unfolding balanced_content byte_len
balanced_content_lem_example = balanced_content_lem b'{' b'}' refl "{a:{b:1}} then" "a:{b:1}" 9 refl

-- A text of 80 bytes, whose byte 16 lies within the dash.
abbrev narration : String
narration = "The door opens — and behind it lies a hall of mirrors that no one remembers..."

emit_prose_holdback_lem_example :
    (event : Option String) × (left : String) × (emit_prose_holdback narration ≡ some (event, left))
    × (unwrap_or event "" ++ left ≡ narration)
    × (byte_len left ≤ 67)
    × (event ≢ some "")
emit_prose_holdback_lem_example = emit_prose_holdback_lem narration

is_fallback_tool_name_at-none_example :
    is_fallback_tool_name_at "the café is " "roll{sides:6}" "roll" ≡ none
unfolding byte_len
is_fallback_tool_name_at-none_example =
    is_fallback_tool_name_at-none "the caf" "é" " is " "roll{sides:6}" "roll" "{sides:6}" refl
      (omega arith) (omega arith)

recall_is_prose : is_valid_bare_call_prefix_at "re" "call: the night" ≡ false
unfolding is_valid_bare_call_prefix_at
recall_is_prose = refl

held_back :
    emit_prose_holdback narration
    ≡ some
        (some "The door opens ", "— and behind it lies a hall of mirrors that no one remembers...")
unfolding emit_prose_holdback boundary_before byte_len slice_to slice_from
held_back = refl
