-- ===== src/Automaton/Compress.antt =====
-- The compressed rows of `ac_build`: for each state the most frequent target, a bitmap of the bytes
-- that go elsewhere, and their targets packed in order.
pub mod Mask
pub mod Memory
pub mod Row
pub mod Bitmap
pub mod Default
pub mod Pack
pub mod Rows
mod Tests
use plumbr_c.Prelude.{
  ℕ, zero, suc, ◌+◌, ◌-◌, ◌*◌, ◌/◌, ◌%◌, ◌^◌, Bool, true, false, Option, none, some, ltb, leb, ◌==◌,
  if◌then◌else◌, run_loop,
}
use Prim.Native.Nat.{bit_or}
use plumbr_c.Automaton.{State, RowIndex, update, int16}

-- A row of the dense table: `states[s].goto_table`.
abbrev pub Row : Type 0
Row = ℕ → Option ℕ

-- `==` on `int32_t` targets.
abbrev pub same_target : Option ℕ → Option ℕ → Bool
same_target none none = true
same_target none (some b) = false
same_target (some a) none = false
same_target (some a) (some b) = a == b

-- How many of the bytes below `n` go to `t`.
unfoldable pub count_target : Row → Option ℕ → ℕ → ℕ
count_target row t zero = 0
count_target row t (suc c) = (if same_target (row c) t then 1 else 0) + count_target row t c

pub record Candidate : Type 0 where
  pub target : Option ℕ
  pub count : ℕ
  pub majority : Bool

-- One round of the scan for a better candidate; `majority` is the `break`.
unfoldable pub better : Row → ℕ → Candidate → Candidate
unfolding count_target
better row c k =
    if k.majority
    then k
    else if same_target (row c) k.target
    then k
    else let cnt = count_target row (row c) 256 in
      if ltb k.count cnt then record { target = row c; count = cnt; majority = ltb 128 cnt } else k

-- The default target of a row.
unfoldable pub default_target : Row → Option ℕ
unfolding better
default_target row =
    let first = count_target row (row 0) 256 in
    if leb first 128
    then (run_loop (better row) 0 256
        (record { target = row 0; count = first; majority = false })).target
    else row 0

-- The bytes below `n` that do not go to the default.
unfoldable pub count_other : Row → Option ℕ → ℕ → ℕ
count_other row def zero = 0
count_other row def (suc c) = (if same_target (row c) def then 0 else 1) + count_other row def c

-- What the first pass has computed: `def_targets`, `row_index` and `total_compressed`.
pub record Sizes : Type 0 where
  pub def_targets : ℕ → Option ℕ
  pub row_index : ℕ → RowIndex
  pub total : ℕ

-- One round of the first pass. `num_trans` is a `uint8_t`, and the offset a `uint32_t`.
unfoldable pub measure_row : (ℕ → State) → ℕ → Sizes → Sizes
unfolding default_target count_other
measure_row states s z =
    let row = (states s).goto_table in
    let def = default_target row in
    let num = count_other row def 256 % 2 ^ 8 in
    record {
      def_targets = update z.def_targets s def;
      row_index =
          update z.row_index s (record { offset = z.total % 2 ^ 32; num_transitions = num });
      total = z.total + (34 + num * 2);
    }

-- The first pass, from state 1 on.
unfoldable pub measure_rows : (ℕ → State) → ℕ → Sizes
unfolding measure_row
measure_rows states ns = run_loop (measure_row states) 1 (ns - 1) (record {
  def_targets = λ _. some 0;
  row_index = λ _. record { offset = 0; num_transitions = 0 };
  total = 0;
})

-- A 16-bit and a 64-bit store, least significant byte first.
abbrev pub store16 : (ℕ → ℕ) → ℕ → ℕ → ℕ → ℕ
store16 mem a v = update (update mem a (v % 256)) (a + 1) (v / 256 % 256)

unfoldable pub store64 : (ℕ → ℕ) → ℕ → ℕ → ℕ → ℕ
store64 mem a v =
    store16 (store16 (store16 (store16 mem a v) (a + 2) (v / 2 ^ 16)) (a + 4) (v / 2 ^ 32)) (a + 6)
      (v / 2 ^ 48)

-- A row while it is packed.
pub record Packing : Type 0 where
  pub bitmap : ℕ → ℕ
  pub trans_idx : ℕ
  pub mem : ℕ → ℕ

-- One byte of a row that begins at `offset`.
unfoldable pub pack_byte : Row → Option ℕ → ℕ → ℕ → Packing → Packing
pack_byte row def offset c p = if same_target (row c) def then p else record {
  bitmap = update p.bitmap (c / 64) (bit_or (p.bitmap (c / 64)) (2 ^ (c % 64)));
  trans_idx = p.trans_idx + 1;
  mem = store16 p.mem (offset + 34 + 2 * p.trans_idx) (int16 (row c));
}

-- The four words of the bitmap, at `a`.
unfoldable pub store_bitmap : (ℕ → ℕ) → ℕ → (ℕ → ℕ) → ℕ → ℕ
unfolding store64
store_bitmap mem a bitmap =
    store64 (store64 (store64 (store64 mem a (bitmap 0)) (a + 8) (bitmap 1)) (a + 16) (bitmap 2))
      (a + 24) (bitmap 3)

-- One row of the second pass: the default, the packed targets, then the bitmap.
unfoldable pub pack_row : Row → Option ℕ → ℕ → (ℕ → ℕ) → ℕ → ℕ
unfolding pack_byte store_bitmap
pack_row row def offset mem =
    let p =
      run_loop (pack_byte row def offset) 0 256
        (record { bitmap = λ _. 0; trans_idx = 0; mem = store16 mem offset (int16 def) }) in
    store_bitmap p.mem (offset + 2) p.bitmap

-- The second pass.
unfoldable pub pack_rows : (ℕ → State) → ℕ → Sizes → (ℕ → ℕ) → ℕ → ℕ
unfolding pack_row
pack_rows states ns z mem =
    run_loop (λ s m. pack_row (states s).goto_table (z.def_targets s) (z.row_index s).offset m) 1
      (ns - 1) mem
