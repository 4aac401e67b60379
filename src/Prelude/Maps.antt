-- ===== src/Prelude/Maps.antt =====
-- Memory and tables as functions from an index.
use Prim.Native.Nat.{ℕ}
use vaelen.Prelude.Tests.{◌==◌, if◌then◌else◌}

-- `f[p] = v`
abbrev pub update {ℓ} : {A : Type ℓ} → (ℕ → A) → ℕ → A → ℕ → A
update f p v q = if p == q then v else f q
