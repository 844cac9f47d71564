-- ===== src/Automaton/Compress/Memory.antt =====
-- Loads after stores in the bytes of the compressed rows.
use plumbr_c.Prelude.{
  ap, ap₂, refl, ◌∙◌, arith, inl, ◌⊎◌, ◌≡◌, ℕ, ◌+◌, ◌*◌, ◌/◌, ◌%◌, ◌^◌, ◌<◌, ◌≤◌,
}
use plumbr_c.Automaton.Search.{load16, load64}
use plumbr_c.Automaton.Compress.{store16, store64}

-- Two memories with the same bytes from `lo` on and below `hi`.
abbrev pub Agree : ℕ → ℕ → (ℕ → ℕ) → (ℕ → ℕ) → Type 0
Agree lo hi m m' = (x : ℕ) → lo ≤ x → x < hi → m x ≡ m' x

pub load16-Agree :
    {lo hi : ℕ} (m m' : ℕ → ℕ) (a : ℕ)
    → Agree lo hi m m'
    → lo ≤ a
    → a + 2 ≤ hi
    → load16 m a ≡ load16 m' a
load16-Agree m m' a same h k =
    omega (arith, same a (omega arith) (omega arith), same (a + 1) (omega arith) (omega arith))

pub load64-Agree :
    {lo hi : ℕ} (m m' : ℕ → ℕ) (a : ℕ)
    → Agree lo hi m m'
    → lo ≤ a
    → a + 8 ≤ hi
    → load64 m a ≡ load64 m' a
unfolding load64
load64-Agree m m' a same h k =
    rw
      (
        load16-Agree m m' a same (omega arith) (omega arith),
        load16-Agree m m' (a + 2) same (omega arith) (omega arith),
        load16-Agree m m' (a + 4) same (omega arith) (omega arith),
        load16-Agree m m' (a + 6) same (omega arith) (omega arith),
      )
      refl

module _ (mem : ℕ → ℕ) (a v : ℕ) where
  pub store16-ne : (x : ℕ) → (x < a) ⊎ (a + 2 ≤ x) → store16 mem a v x ≡ mem x
  store16-ne x h = ground arith

  pub load16-store16_self : load16 (store16 mem a v) a ≡ v % 65536
  load16-store16_self = ground arith

  pub load16-store16_ne :
      (b : ℕ) → (b + 2 ≤ a) ⊎ (a + 2 ≤ b) → load16 (store16 mem a v) b ≡ load16 mem b
  load16-store16_ne b h = ground arith

module _ (mem : ℕ → ℕ) (a v : ℕ) where
  pub store64-ne : (x : ℕ) → (x < a) ⊎ (a + 8 ≤ x) → store64 mem a v x ≡ mem x
  unfolding store64
  store64-ne x h =
      let m1 = store16 mem a v in
      let m2 = store16 m1 (a + 2) (v / 2 ^ 16) in
      let m3 = store16 m2 (a + 4) (v / 2 ^ 32) in
      store16-ne m3 (a + 6) (v / 2 ^ 48) x (ground arith)
      ∙ store16-ne m2 (a + 4) (v / 2 ^ 32) x (ground arith)
      ∙ store16-ne m1 (a + 2) (v / 2 ^ 16) x (ground arith)
      ∙ store16-ne mem a v x (ground arith)

  pub load64-store64_self : v < 2 ^ 64 → load64 (store64 mem a v) a ≡ v
  unfolding load64 store64
  load64-store64_self h =
      let m1 = store16 mem a v in
      let m2 = store16 m1 (a + 2) (v / 2 ^ 16) in
      let m3 = store16 m2 (a + 4) (v / 2 ^ 32) in
      let w0 : load16 (store64 mem a v) a ≡ v % 65536 =
        load16-store16_ne m3 (a + 6) (v / 2 ^ 48) a (inl (omega arith))
        ∙ load16-store16_ne m2 (a + 4) (v / 2 ^ 32) a (inl (omega arith))
        ∙ load16-store16_ne m1 (a + 2) (v / 2 ^ 16) a (inl (omega arith))
        ∙ load16-store16_self mem a v in
      let w1 : load16 (store64 mem a v) (a + 2) ≡ v / 2 ^ 16 % 65536 =
        load16-store16_ne m3 (a + 6) (v / 2 ^ 48) (a + 2) (inl (omega arith))
        ∙ load16-store16_ne m2 (a + 4) (v / 2 ^ 32) (a + 2) (inl (omega arith))
        ∙ load16-store16_self m1 (a + 2) (v / 2 ^ 16) in
      let w2 : load16 (store64 mem a v) (a + 4) ≡ v / 2 ^ 32 % 65536 =
        load16-store16_ne m3 (a + 6) (v / 2 ^ 48) (a + 4) (inl (omega arith))
        ∙ load16-store16_self m2 (a + 4) (v / 2 ^ 32) in
      let w3 : load16 (store64 mem a v) (a + 6) ≡ v / 2 ^ 48 % 65536 =
        load16-store16_self m3 (a + 6) (v / 2 ^ 48) in
      ap₂ (λ (x y : ℕ). x + y)
        (ap₂ (λ (x y : ℕ). x + 2 ^ 32 * y) (ap₂ (λ (x y : ℕ). x + 2 ^ 16 * y) w0 w1) w2)
        (ap (λ (x : ℕ). 2 ^ 48 * x) w3)
      ∙ omega arith

  pub load64-store64_ne :
      (b : ℕ) → (b + 8 ≤ a) ⊎ (a + 8 ≤ b) → load64 (store64 mem a v) b ≡ load64 mem b
  load64-store64_ne b h =
      load64-Agree {lo = b} {hi = b + 8} (store64 mem a v) mem b
        (λ x lo hi. store64-ne x (apart x lo hi)) (omega arith) (omega arith)
    where
      apart : (x : ℕ) → b ≤ x → x < b + 8 → (x < a) ⊎ (a + 8 ≤ x)
      apart x lo hi = ground arith
