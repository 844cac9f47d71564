-- ===== src/Automaton/Compress/Bitmap.antt =====
-- `store_bitmap` writes four words, and nothing else.
use plumbr_c.Prelude.{inl, ◌∙◌, arith, ◌⊎◌, ◌≡◌, ℕ, zero, suc, ◌+◌, ◌*◌, ◌^◌, ◌<◌, ◌≤◌}
use plumbr_c.Automaton.Search.{load64}
use plumbr_c.Automaton.Compress.{store_bitmap, store64}
use plumbr_c.Automaton.Compress.Memory.{store64-ne, load64-store64_self, load64-store64_ne}

module _ (mem : ℕ → ℕ) (a : ℕ) (bm : ℕ → ℕ) where
  abbrev m1 : ℕ → ℕ
  m1 = store64 mem a (bm 0)

  abbrev m2 : ℕ → ℕ
  m2 = store64 m1 (a + 8) (bm 1)

  abbrev m3 : ℕ → ℕ
  m3 = store64 m2 (a + 16) (bm 2)

  pub store_bitmap-ne : (x : ℕ) → (x < a) ⊎ (a + 32 ≤ x) → store_bitmap mem a bm x ≡ mem x
  unfolding store_bitmap
  store_bitmap-ne x h =
      store64-ne m3 (a + 24) (bm 3) x (ground arith)
      ∙ store64-ne m2 (a + 16) (bm 2) x (ground arith)
      ∙ store64-ne m1 (a + 8) (bm 1) x (ground arith)
      ∙ store64-ne mem a (bm 0) x (ground arith)

  pub load64-store_bitmap :
      ((k : ℕ) → k < 4 → bm k < 2 ^ 64)
      → (k : ℕ) → k < 4
      → load64 (store_bitmap mem a bm) (a + 8 * k) ≡ bm k
  unfolding store_bitmap
  load64-store_bitmap fits zero h =
      let e : a + 8 * zero ≡ a = omega arith in
      rw e (
        load64-store64_ne m3 (a + 24) (bm 3) a (inl (omega arith))
        ∙ load64-store64_ne m2 (a + 16) (bm 2) a (inl (omega arith))
        ∙ load64-store64_ne m1 (a + 8) (bm 1) a (inl (omega arith))
        ∙ load64-store64_self mem a (bm 0) (fits 0 (omega arith)))
  load64-store_bitmap fits (suc zero) h =
      load64-store64_ne m3 (a + 24) (bm 3) (a + 8) (inl (omega arith))
      ∙ load64-store64_ne m2 (a + 16) (bm 2) (a + 8) (inl (omega arith))
      ∙ load64-store64_self m1 (a + 8) (bm 1) (fits 1 (omega arith))
  load64-store_bitmap fits (suc (suc zero)) h =
      load64-store64_ne m3 (a + 24) (bm 3) (a + 16) (inl (omega arith))
      ∙ load64-store64_self m2 (a + 16) (bm 2) (fits 2 (omega arith))
  load64-store_bitmap fits (suc (suc (suc zero))) h =
      load64-store64_self m3 (a + 24) (bm 3) (fits 3 (omega arith))
  load64-store_bitmap fits (suc (suc (suc (suc k)))) h = absurd (omega arith)
