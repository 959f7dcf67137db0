-- ===== src/Inference/Connection.antt =====
-- The connections to inference providers, by priority: crates/dreamwell-types/src/lib.rs.
use Prim.Native.String.{◌++◌}
use dreamwell.Common.{
  ◌≡◌, refl, ap, ◌∙◌, Bool, true, false, ◌&&◌, ◌||◌, not, List, [], ◌∷◌, String, if◌then◌else◌,
  keep, is_empty, any, any-of_keep, arith, ◌==◌, Bool-cases, inl, inr,
}
use dreamwell.Common.Int.{ℤ, int_eq, ltb_ℤ, int_beq-nat_beq}
use dreamwell.Common.Decimal.{show_ℤ}
use dreamwell.Common.Text.{trim, is_empty_text, nonempty}

-- The fields that the choice of a provider reads.
pub record InferenceConnection : Type 0 where
  pub id : ℤ
  pub name : String
  pub inference_url : String
  pub model : String
  pub enabled : Bool
  pub sort_order : ℤ

unfoldable pub connection_label : InferenceConnection → String
connection_label conn =
    if nonempty (trim conn.name)
    then trim conn.name
    else if nonempty (trim conn.inference_url)
    then trim conn.inference_url
    else "Connection " ++ show_ℤ conn.id

abbrev pub connection_inference_ready : InferenceConnection → Bool
connection_inference_ready conn =
    conn.enabled
    && (not (is_empty_text (trim conn.inference_url)) && not (is_empty_text (trim conn.model)))

-- `(a.sort_order, a.id) < (b.sort_order, b.id)`.
abbrev pub key_lt : InferenceConnection → InferenceConnection → Bool
key_lt a b = ltb_ℤ a.sort_order b.sort_order || ((a.sort_order == b.sort_order) && ltb_ℤ a.id b.id)

-- `sort_by_key` is stable: a connection stands before those whose key is not smaller.
unfoldable pub insert_by_key :
    InferenceConnection → List InferenceConnection → List InferenceConnection
insert_by_key c [] = c ∷ []
insert_by_key c (d ∷ rest) =
    let later = d ∷ insert_by_key c rest in if key_lt d c then later else c ∷ d ∷ rest

unfoldable pub sort_by_key : List InferenceConnection → List InferenceConnection
unfolding insert_by_key
sort_by_key [] = []
sort_by_key (c ∷ rest) = insert_by_key c (sort_by_key rest)

unfoldable pub fallback_connections : List InferenceConnection → List InferenceConnection
unfolding sort_by_key
fallback_connections connections = sort_by_key (keep connection_inference_ready connections)

unfoldable pub has_inference_provider : List InferenceConnection → Bool
unfolding fallback_connections
has_inference_provider connections = not (is_empty (fallback_connections connections))

-- No connection stands before one of a smaller key.
abbrev pub IsSorted : List InferenceConnection → Type 0
IsSorted [] = Unit {0}
IsSorted (c ∷ rest) = (any (λ d. key_lt d c) rest ≡ false) × IsSorted rest

any-insert_by_key :
    (p : InferenceConnection → Bool) (c : InferenceConnection) (l : List InferenceConnection)
    → any p (insert_by_key c l) ≡ (p c || any p l)
unfolding insert_by_key
any-insert_by_key p c [] = refl
any-insert_by_key p c (d ∷ l) = ground (arith, any-insert_by_key p c l)

any-sort_by_key :
    (p : InferenceConnection → Bool) (l : List InferenceConnection)
    → any p (sort_by_key l) ≡ any p l
unfolding sort_by_key
any-sort_by_key p [] = refl
any-sort_by_key p (c ∷ l) =
    any-insert_by_key p c (sort_by_key l) ∙ ap (λ t. p c || t) (any-sort_by_key p l)

key_lt_trans :
    (c d e : InferenceConnection) → key_lt d c ≡ false → key_lt e d ≡ false → key_lt e c ≡ false
key_lt_trans c d e h k = ground (
  arith,
  int_beq-nat_beq e.sort_order c.sort_order,
  int_beq-nat_beq d.sort_order c.sort_order,
  int_beq-nat_beq e.sort_order d.sort_order,
)

key_lt_asym : (c d : InferenceConnection) → key_lt c d ≡ true → key_lt d c ≡ false
key_lt_asym c d h =
    ground
      (arith, int_beq-nat_beq c.sort_order d.sort_order, int_beq-nat_beq d.sort_order c.sort_order)

any_smaller :
    (c d : InferenceConnection) (l : List InferenceConnection)
    → key_lt d c ≡ false
    → any (λ e. key_lt e d) l ≡ false
    → any (λ e. key_lt e c) l ≡ false
any_smaller c d [] h k = refl
any_smaller c d (e ∷ l) h k = ground (arith, key_lt_trans c d e, any_smaller c d l)

insert_by_key-IsSorted :
    (c : InferenceConnection) (l : List InferenceConnection)
    → IsSorted l
    → IsSorted (insert_by_key c l)
unfolding insert_by_key
insert_by_key-IsSorted c [] s = (refl, tt)
insert_by_key-IsSorted c (d ∷ l) (first, s) = elim (Bool-cases (key_lt d c)) [
  | inl after ↦
      let c_later : key_lt c d ≡ false = key_lt_asym d c after in
      let rest : any (λ e. key_lt e d) (insert_by_key c l) ≡ false =
        any-insert_by_key (λ e. key_lt e d) c l ∙ ground arith in
      rw after (rest, insert_by_key-IsSorted c l s)
  | inr before ↦
      let later : any (λ e. key_lt e c) l ≡ false = any_smaller c d l before first in
      let all_later : any (λ e. key_lt e c) (d ∷ l) ≡ false = ground arith in
      rw before (all_later, (first, s))
]

sort_by_key-IsSorted : (l : List InferenceConnection) → IsSorted (sort_by_key l)
unfolding sort_by_key
sort_by_key-IsSorted [] = tt
sort_by_key-IsSorted (c ∷ l) = insert_by_key-IsSorted c (sort_by_key l) (sort_by_key-IsSorted l)

-- The fallback order holds the ready connections and no others, none behind one of a larger key.
pub fallback_connections_lem :
    (p : InferenceConnection → Bool) (connections : List InferenceConnection)
    → IsSorted (fallback_connections connections)
      × (any p (fallback_connections connections)
          ≡ any (λ c. connection_inference_ready c && p c) connections)
unfolding fallback_connections
fallback_connections_lem p connections = (
  sort_by_key-IsSorted (keep connection_inference_ready connections),
  any-sort_by_key p (keep connection_inference_ready connections)
      ∙ any-of_keep p connection_inference_ready connections,
)
