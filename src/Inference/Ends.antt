-- ===== src/Inference/Ends.antt =====
-- How the attempts on one connection after another end: `attempt_connections!` of
-- crates/server/src/model_fallback.rs.
use dreamwell.Common.{
  get_elem?, not, is_empty, take, length, ◌⊎◌, inl, inr, ◌&&◌, Bool-cases, Option-cases, arith, ap,
  ℕ, suc, ◌+◌, ◌<◌, is_some, ◌≡◌, refl, Bool, true, false, Option, none, some, List, [], ◌∷◌,
  String,
}
use dreamwell.Common.Int.{ℤ, int_eq}
use dreamwell.Inference.Connection.{
  InferenceConnection, connection_label, fallback_connections, has_inference_provider,
}
use dreamwell.Inference.Notice.{AppError, fallback_notice, short_error}
use dreamwell.Inference.Fallback.{
  AppResult, ok, err, Ending, returned, panicked, Marks, record_fallback, after_notice,
}
use dreamwell.Inference.Fallback

module _ {ℓ κ} {Config : Type κ} {A : Type ℓ} (config_of : ℤ → AppResult Config)
    (answer : ℕ → Config → InferenceConnection → String → AppResult A)
    (job_id message_id : Option ℤ) (model_override : Option String) where
  abbrev attempt_one : ℕ → InferenceConnection → AppResult A
  attempt_one = Fallback.attempt_one config_of answer job_id message_id model_override

  abbrev marks_of_attempt : InferenceConnection → Marks → Marks
  marks_of_attempt = Fallback.marks_of_attempt config_of answer job_id message_id model_override

  abbrev moves_on : InferenceConnection → AppResult A → Bool
  moves_on = Fallback.moves_on config_of answer job_id message_id model_override

  abbrev error_of : AppResult A → AppError
  error_of = Fallback.error_of config_of answer job_id message_id model_override

  abbrev attempt_from : ℕ → List InferenceConnection → Marks → Ending A × Marks
  attempt_from = Fallback.attempt_from config_of answer job_id message_id model_override

  abbrev attempt_connections : List InferenceConnection → Marks → Ending A × Marks
  attempt_connections =
      Fallback.attempt_connections config_of answer job_id message_id model_override

  -- Every connection of a list, from an index on, moves on to the next, with an error that can be
  -- shortened for the notice.
  abbrev pub all_move : ℕ → List InferenceConnection → Bool
  all_move index [] = true
  all_move index (conn ∷ rest) =
      moves_on conn (attempt_one index conn)
      && (is_some (short_error (error_of (attempt_one index conn))) && all_move (suc index) rest)

  module _ (index : ℕ) (conn next : InferenceConnection) (rest : List InferenceConnection)
      (m : Marks) where
    pub stops :
        moves_on conn (attempt_one index conn) ≡ false
        → attempt_from index (conn ∷ next ∷ rest) m
          ≡ (returned (attempt_one index conn), marks_of_attempt conn m)
    unfolding Fallback.attempt_from
    stops h = rw h refl

    pub moves :
        (m' : Marks)
        → moves_on conn (attempt_one index conn) ≡ true
        → record_fallback job_id message_id
            (connection_label conn)
            (connection_label next)
            (error_of (attempt_one index conn))
            (marks_of_attempt conn m)
          ≡ some m'
        → attempt_from index (conn ∷ next ∷ rest) m ≡ attempt_from (suc index) (next ∷ rest) m'
    unfolding Fallback.attempt_from
    moves m' h k = rw h (rw k refl)

    pub panics :
        moves_on conn (attempt_one index conn) ≡ true
        → record_fallback job_id message_id
            (connection_label conn)
            (connection_label next)
            (error_of (attempt_one index conn))
            (marks_of_attempt conn m)
          ≡ none
        → attempt_from index (conn ∷ next ∷ rest) m ≡ (panicked, marks_of_attempt conn m)
    unfolding Fallback.attempt_from
    panics h k = rw h (rw k refl)

  -- How the loop from an index can end at the connection `k` places further, which has index `i`.
  abbrev pub EndsAt : ℕ → List InferenceConnection → Ending A → Type ℓ
  EndsAt index conns ending =
      (k : ℕ) × (i : ℕ) × (last : InferenceConnection) × (i ≡ index + k)
      × (get_elem? conns k ≡ some last)
      × (all_move index (take k conns) ≡ true)
      × ((ending ≡ returned (attempt_one i last))
            × ((moves_on last (attempt_one i last) ≡ false) ⊎ (suc k ≡ length conns))
          ⊎ (ending ≡ panicked)
            × (moves_on last (attempt_one i last) ≡ true)
            × (suc k < length conns)
            × (short_error (error_of (attempt_one i last)) ≡ none))

  ends_later :
      (index : ℕ) (conn next : InferenceConnection) (rest : List InferenceConnection)
      (ending : Ending A)
      → moves_on conn (attempt_one index conn) ≡ true
      → is_some (short_error (error_of (attempt_one index conn))) ≡ true
      → EndsAt (suc index) (next ∷ rest) ending
      → EndsAt index (conn ∷ next ∷ rest) ending
  ends_later index conn next rest ending h short (k, i, last, at, got, moved, inl (e, w)) =
      (suc k, i, last, omega arith, got, rw (h, short) moved, inl (e, later w))
    where
      later :
          (moves_on last (attempt_one i last) ≡ false) ⊎ (suc k ≡ suc (length rest))
          → (moves_on last (attempt_one i last) ≡ false) ⊎ (suc (suc k) ≡ suc (suc (length rest)))
      later (inl w) = inl w
      later (inr w) = inr (ap suc w)
  ends_later index conn next rest ending h short
        (k, i, last, at, got, moved, inr (e, goes, more, w)) =
      (suc k, i, last, omega arith, got, rw (h, short) moved, inr (e, goes, omega (arith, more), w))

  notice_panics :
      (from to : String) (error : AppError) (m : Marks)
      → record_fallback job_id message_id from to error m ≡ none
      → short_error error ≡ none
  unfolding record_fallback fallback_notice
  notice_panics from to error m h = ground arith

  notice_given :
      (from to : String) (error : AppError) (m m' : Marks)
      → record_fallback job_id message_id from to error m ≡ some m'
      → is_some (short_error error) ≡ true
  unfolding record_fallback fallback_notice
  notice_given from to error m m' h = ground arith

  -- The loop ends at the first connection that does not move on or at the last, or it panics at the
  -- first whose notice panics.
  pub attempt_from-EndsAt :
      (index : ℕ) (conn : InferenceConnection) (rest : List InferenceConnection) (m : Marks)
      → EndsAt index (conn ∷ rest) (attempt_from index (conn ∷ rest) m).0
  unfolding Fallback.attempt_from
  attempt_from-EndsAt index conn [] m =
      (0, index, conn, omega arith, refl, refl, inl (refl, inr refl))
  attempt_from-EndsAt index conn (next ∷ rest) m =
      elim (Bool-cases (moves_on conn (attempt_one index conn))) [
        | inr stop ↦ (
          0,
          index,
          conn,
          omega arith,
          refl,
          refl,
          inl (ap (λ p. p.0) (stops index conn next rest m stop), inl stop),
        )
        | inl move ↦
            elim (Option-cases (
              record_fallback job_id message_id (connection_label conn) (connection_label next)
                (error_of (attempt_one index conn)) (marks_of_attempt conn m))) [
                  | inl bad ↦ (
                    0,
                    index,
                    conn,
                    omega arith,
                    refl,
                    refl,
                    inr (
                      ap (λ p. p.0) (panics index conn next rest m move bad),
                      move,
                      omega arith,
                      notice_panics _ _ _ _ bad,
                    ),
                  )
                  | inr (m', good) ↦ rw (moves index conn next rest m m' move good) (
                      ends_later index conn next rest _ move (notice_given _ _ _ _ m' good)
                        (attempt_from-EndsAt (suc index) next rest m'))
                ]
      ]

  -- With a provider the call ends with the attempt of the first of the ready connections, in
  -- their order, that does not move on or is the last, and every earlier error could be shortened;
  -- or it panics at the first that would move on, before the last, whose error cannot be shortened.
  pub attempt_connections-EndsAt :
      (connections : List InferenceConnection) (m : Marks)
      → has_inference_provider connections ≡ true
      → EndsAt 0 (fallback_connections connections) (attempt_connections connections m).0
  unfolding Fallback.attempt_connections has_inference_provider
  attempt_connections-EndsAt connections m h = ends (fallback_connections connections) h
    where
      ends :
          (l : List InferenceConnection)
          → not (is_empty l) ≡ true
          → EndsAt 0 l (attempt_from 0 l m).0
      ends [] h = absurd (cc)
      ends (conn ∷ rest) h = attempt_from-EndsAt 0 conn rest m
