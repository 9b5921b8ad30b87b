-- ===== src/Sequencer/Drain.antt =====
-- internal/sequencer/settlement_sequencer.go: `drain`, the passes of a tick. The timer of `Run` calls it.
use ganc_sys.Prelude.{
  ℕ, zero, suc, ◌+◌, ◌≡◌, ◌≢◌, ◌⊎◌, Bool, true, false, Option, none, some, if◌then◌else◌,
}
use ganc_sys.Sequencer.{Drivers, Settled, idle, settled, failed, settle_once}

module _ {W : Type 0} (drivers : Drivers W) (has_recovery : Bool) (live : ℕ → Bool) where
  -- How the loop goes on after a pass; `rest` is what the passes after it lead to.
  abbrev pub after_pass : Settled → W → Option W → Option W
  after_pass settled w rest = rest
  after_pass idle w rest = some w
  after_pass (failed _) w rest = some w

  -- `drain`, from the n-th look at the context on; `none` is a loop that was cut off.
  unfoldable pub drain : ℕ → ℕ → W → Option W
  drain zero n w = none
  drain (suc fuel) n w =
      let (answer, w') = settle_once drivers has_recovery w in
      let rest = drain fuel (n + 1) w' in if live n then after_pass answer w' rest else some w

  -- From w, k passes in a row settled a batch, with the context live at each look from the n-th on.
  abbrev pub Settles : ℕ → ℕ → W → W → Type 0
  Settles zero n w v = w ≡ v
  Settles (suc k) n w v =
      (live n ≡ true)
      × (u : W) × (settle_once drivers has_recovery w ≡ (settled, u))
      × Settles k (n + 1) u v

  -- A drain from the n-th look on: passes that settle, and behind them a look at a context that is
  -- done, or a pass that is idle or fails.
  pub record IsDrained (n : ℕ) (w w' : W) : Type 0 where
    pub passes : ℕ
    pub before : W
    pub settles : Settles passes n w before
    pub ends :
        ((live (n + passes) ≡ false) × (w' ≡ before))
        ⊎ ((live (n + passes) ≡ true)
            × (answer : Settled) × (settle_once drivers has_recovery before ≡ (answer, w'))
            × (answer ≢ settled))

  -- What a pass leads to: the end, or what the passes behind it lead to.
  abbrev Ends : ℕ → W → Option W → Type 0
  Ends n w found = (w' : W) × (found ≡ some w') × IsDrained n w w'
