-- ===== src/Relayer/Cosmos/Retries.antt =====
-- internal/relayer/cosmos_client.go: how often, and on what, a command is run again.
use ganc_sys.Prelude.{
  ℕ, zero, suc, ◌+◌, ◌-◌, ◌%◌, ◌^◌, ◌<◌, ◌≤◌, ◌≡◌, ◌⊎◌, refl, sym, ◌∙◌, ap, Bool, true, false, ◌&&◌,
  List, [], ◌∷◌, ◌++◌, append_assoc, Option, Result, err, arith, inl, inr, other_failure, ltb,
  length, length-append, Bool-cases,
}
use ganc_sys.Text.{Text}
use ganc_sys.Text.Int64.{greater64}
use ganc_sys.Relayer.Cosmos.Output.{TxOutput, parse_tx_output}
use ganc_sys.Relayer.Cosmos.Broadcast.{
  Run, Runner, World, answer_to, may_retry, judge, broadcast_rounds, broadcast, rounds,
}
use ganc_sys.Relayer.Cosmos.Mismatch.{IsMismatch, may_retry_iff, result_of-parse}

-- The order of the words as signed numbers.
abbrev signed : ℕ → ℕ
signed n = (n + 2 ^ 63) % 2 ^ 64

-- The rounds that a configured number allows: itself, but at least one.
abbrev pub IsAllowed : ℕ → ℕ → Type 0
IsAllowed seq_retry_max n =
    ((signed 1 ≤ signed seq_retry_max) × (n ≡ seq_retry_max))
    ⊎ ((signed seq_retry_max < signed 1) × (n ≡ 1))

module _ (runner : Runner) (decode : Text → Option TxOutput) (live : ℕ → Bool)
    (args : List Text) where
  -- Runs, the last one first, that were each followed by another: the command answered with a
  -- sequence mismatch, and the context was live behind it.
  abbrev pub Retried : List Run → World → Type 0
  Retried [] w = Unit
  Retried (run ∷ runs) w =
      (run ≡ answer_to runner args (runs ++ w))
      × IsMismatch decode run
      × (live (length (runs ++ w)) ≡ true)
      × Retried runs w

  -- The end after n rounds: the parsed last answer, if it names no mismatch or no round is left, or
  -- the error of a context that was done behind a mismatch.
  abbrev pub IsEnd : ℕ → Run → List Run → World → Result TxOutput → Type 0
  IsEnd n last earlier w r =
      ((r ≡ parse_tx_output decode last.output)
        × ((¬ IsMismatch decode last) ⊎ (suc (length earlier) ≡ n)))
      ⊎ ((r ≡ err other_failure)
          × IsMismatch decode last
          × (suc (length earlier) < n)
          × (live (length (earlier ++ w)) ≡ false))

  -- A loop that may use n rounds: the runs that led to another round, and a last one.
  pub record Rounds (n : ℕ) (w w' : World) (r : Result TxOutput) : Type 0 where
    pub last : Run
    pub earlier : List Run
    pub log : w' ≡ last ∷ (earlier ++ w)
    pub bounded : length earlier < n
    pub retried : Retried earlier w
    pub asked : last ≡ answer_to runner args (earlier ++ w)
    pub ends : IsEnd n last earlier w r

  Retried-append_one :
      (run : Run) (runs : List Run) (w : World)
      → Retried runs (run ∷ w)
      → Retried (run ∷ []) w
      → Retried (runs ++ (run ∷ [])) w
  Retried-append_one run [] w h one = one
  Retried-append_one run (x ∷ runs) w (asked, named, alive, rest) one =
      rw (append_assoc runs (run ∷ []) w)
        (asked, named, alive, Retried-append_one run runs w rest one)

  -- A loop that ends with its first run.
  only :
      (n : ℕ) (w : World) (r : Result TxOutput)
      → IsEnd (suc n) (answer_to runner args w) [] w r
      → Rounds (suc n) w (answer_to runner args w ∷ w) r
  only n w r ends = record {
    last = answer_to runner args w;
    earlier = [];
    log = refl;
    bounded = omega arith;
    retried = tt;
    asked = refl;
    ends = ends;
  }

  one_more :
      (n : ℕ) (w w' : World) (r : Result TxOutput)
      → Retried (answer_to runner args w ∷ []) w
      → Rounds n (answer_to runner args w ∷ w) w' r
      → Rounds (suc n) w w' r
  one_more n w w' r one h =
      let run = answer_to runner args w in
      let same : (h.earlier ++ (run ∷ [])) ++ w ≡ h.earlier ++ (run ∷ w) =
        append_assoc h.earlier (run ∷ []) w in
      let longer = length-append h.earlier (run ∷ []) in
      record {
        last = h.last;
        earlier = h.earlier ++ (run ∷ []);
        log = h.log ∙ ap (λ t. h.last ∷ t) (sym same);
        bounded = omega (arith, h.bounded, longer);
        retried = Retried-append_one run h.earlier w h.retried one;
        asked = h.asked ∙ ap (answer_to runner args) (sym same);
        ends = rw same (ground (arith, h.ends, longer));
      }

  unmatched : (run : Run) → may_retry runner decode run ≡ false → ¬ IsMismatch decode run
  unmatched run quiet named = ground (arith, quiet, (may_retry_iff decode runner run).1 named)

  -- A round that is the last one allowed, or that is followed by others.
  one_round :
      (n : ℕ) (w : World)
      → (ltb 0 n ≡ true
          → Rounds n
              (answer_to runner args w ∷ w)
              (broadcast_rounds runner decode live n args (answer_to runner args w ∷ w)).1
              (broadcast_rounds runner decode live n args (answer_to runner args w ∷ w)).0)
      → Rounds
          (suc n)
          w
          (broadcast_rounds runner decode live (suc n) args w).1
          (broadcast_rounds runner decode live (suc n) args w).0
  unfolding broadcast_rounds judge
  one_round n w later =
      let run = answer_to runner args w in
      elim (Bool-cases (may_retry runner decode run && ltb 0 n)) [
        | inr done ↦ rw done (
            only n w _ (
              inl (
                result_of-parse decode runner run,
                elim (Bool-cases (may_retry runner decode run)) [
                  | inr quiet ↦ inl (unmatched run quiet)
                  | inl named ↦ inr (ground (arith, done, named))
                ],
              )))
        | inl more ↦
            let named : IsMismatch decode run =
              (may_retry_iff decode runner run).0 (ground (arith, more)) in
            elim (Bool-cases (live (length w))) [
              | inr over ↦
                  rw (more, over) (only n w _ (inr (refl, named, ground (arith, more), over)))
              | inl alive ↦
                  rw (more, alive)
                    (one_more n w _ _ (refl, named, alive, tt) (later (ground (arith, more))))
            ]
      ]

  sent :
      (n : ℕ) (w : World)
      → Rounds
          (suc n)
          w
          (broadcast_rounds runner decode live (suc n) args w).1
          (broadcast_rounds runner decode live (suc n) args w).0
  sent zero w = one_round zero w (λ more. absurd (ground (arith, more)))
  sent (suc n) w = one_round (suc n) w (λ _. sent n (answer_to runner args w ∷ w))

  rounds-IsAllowed : (m : ℕ) → (k : ℕ) × (rounds m ≡ suc k) × IsAllowed m (suc k)
  rounds-IsAllowed m = elim (Bool-cases (greater64 1 m)) [
    | inl low ↦ (0, rw low refl, inr (ground (arith, low), refl))
    | inr high ↦ (m - 1, rw high (ground (arith, high)), inl (ground (arith, high)))
  ]

  -- A broadcast runs the command at least once and at most SeqRetryMax times, or once if that is
  -- below one, always with the same arguments, and again only after an answer that names an account
  -- sequence mismatch, with the context still live; its result is the parsed last answer if that
  -- names no mismatch or no round is left, and the cancelled context's error if it names one, a
  -- round is left and the context is done. A mismatch is named in the output of a run that failed
  -- and printed no transaction, or in the log of a transaction with an error code.
  pub broadcast-Rounds :
      (seq_retry_max : ℕ) (w : World)
      → (n : ℕ) × IsAllowed seq_retry_max n
        × Rounds n w
            (broadcast runner decode live seq_retry_max args w).1
            (broadcast runner decode live seq_retry_max args w).0
  unfolding broadcast
  broadcast-Rounds seq_retry_max w =
      let (k, e, allowed) = rounds-IsAllowed seq_retry_max in (suc k, allowed, rw e (sent k w))
