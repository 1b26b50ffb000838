-- ===== src/Runtime/Service/Slot.antt =====
-- `set_slot` of the decode service of src/decode/runtime.cu: the arguments that it accepts, and what it does.
use cohere_megakernel.Common.{
  ℕ, ◌+◌, ◌/◌, ◌%◌, ◌^◌, ◌<◌, ◌≡◌, ◌⊎◌, refl, subst, arith, Bool, true, false, ◌&&◌, not, ◌==◌,
  ==_refl, Bool-cases, inl, inr,
}
use cohere_megakernel.Common.Int.{ℤ, pos, negsuc, pos_part, is_neg, below, int_lt}
use cohere_megakernel.Runtime.Float.{Float, finite_nonnegative, is_finite, sign_bit, is_zero}
use cohere_megakernel.Runtime.Failure.{
  RuntimeError, returned, thrown, slot_row_out_of_range, slot_outside_context, temperature_negative,
}
use cohere_megakernel.Runtime.Service.{
  NmcDecodeServiceDesc, NmcDecodeService, unfinished, count_active, recompute_active_rows_locked,
  slot_in_context, set_slot, slot_written,
}
use cohere_megakernel.Runtime.Service.Invariant.{IsService}

-- A bound of the descriptor above `n`
abbrev Below : ℕ → ℤ → Type 0
Below n bound = (m : ℕ) × (bound ≡ pos m) × (n < m)

-- The arguments that `set_slot` is for: a row of the batch; a position and a column that are not negative,
-- and for an active row below `max_new` and `max_seq_len`; and a temperature by its bits, which is neither
-- infinite nor NaN and has the sign bit at a zero only.
pub record Accepts (s : NmcDecodeService) (row : ℤ) (active : Bool) (start_pos gen_col : ℤ)
    (temperature : Float) : Type 0 where
  pub row_index : ℕ
  pub position : ℕ
  pub column : ℕ
  pub same_row : row ≡ pos row_index
  pub in_batch : row_index < s.batch
  pub same_position : start_pos ≡ pos position
  pub same_column : gen_col ≡ pos column
  pub new_room : active ≡ true → Below column s.desc.max_new
  pub context_room : active ≡ true → Below (position + column) s.desc.max_seq_len
  pub is_number : ¬ (temperature / 2 ^ 23 % 256 ≡ 255)
  pub not_negative : (temperature / 2 ^ 31 ≡ 0) ⊎ (temperature % 2 ^ 31 ≡ 0)

int_lt-Below : (n : ℕ) (z : ℤ) → int_lt (pos n) z ≡ true → Below n z
int_lt-Below n (pos m) h = (m, refl, ground arith)
int_lt-Below n (negsuc m) h = cc

Below-int_lt : (n : ℕ) (z : ℤ) → Below n z → int_lt (pos n) z ≡ true
Below-int_lt n z (m, e, l) = rw e (ground arith)

finite_nonnegative-bits :
    (f : Float)
    → finite_nonnegative f ≡ true
    → (¬ (f / 2 ^ 23 % 256 ≡ 255)) × ((f / 2 ^ 31 ≡ 0) ⊎ (f % 2 ^ 31 ≡ 0))
unfolding finite_nonnegative is_finite sign_bit is_zero
finite_nonnegative-bits f h = (λ e. absurd (ground arith), ground arith)

bits-finite_nonnegative :
    (f : Float)
    → ¬ (f / 2 ^ 23 % 256 ≡ 255)
    → (f / 2 ^ 31 ≡ 0) ⊎ (f % 2 ^ 31 ≡ 0)
    → finite_nonnegative f ≡ true
unfolding finite_nonnegative is_finite sign_bit is_zero
bits-finite_nonnegative f h k = ground arith

row-index :
    (row : ℤ) (n : ℕ) → (not (is_neg row) && below row n) ≡ true → (r : ℕ) × (row ≡ pos r) × (r < n)
row-index (pos r) n h = (r, refl, ground arith)
row-index (negsuc r) n h = cc

-- The three tests of the code
unfoldable pub slot_accepted : NmcDecodeService → ℤ → Bool → ℤ → ℤ → Float → Bool
slot_accepted s row active start_pos gen_col temperature =
    (not (is_neg row) && below row s.batch)
    && (slot_in_context s.desc active start_pos gen_col && finite_nonnegative temperature)

Accepts-slot_accepted :
    (s : NmcDecodeService) (row : ℤ) (active : Bool) (start_pos gen_col : ℤ) (temperature : Float)
    → Accepts s row active start_pos gen_col temperature
    → slot_accepted s row active start_pos gen_col temperature ≡ true
unfolding slot_accepted slot_in_context
Accepts-slot_accepted s row active start_pos gen_col temperature a =
    let finite = bits-finite_nonnegative temperature a.is_number a.not_negative in
    let new_ = λ (h : active ≡ true). Below-int_lt a.column s.desc.max_new (a.new_room h) in
    let context = λ (h : active ≡ true).
      Below-int_lt (a.position + a.column) s.desc.max_seq_len (a.context_room h) in
    rw (a.same_row, a.same_position, a.same_column)
      (ground (arith, a.in_batch, finite, new_, context))

slot_accepted-Accepts :
    (s : NmcDecodeService) (row : ℤ) (active : Bool) (start_pos gen_col : ℤ) (temperature : Float)
    → slot_accepted s row active start_pos gen_col temperature ≡ true
    → Accepts s row active start_pos gen_col temperature
unfolding slot_accepted slot_in_context
slot_accepted-Accepts s row active (pos p) (pos g) temperature h =
    let (r, e, l) = row-index row s.batch (ground arith) in
    let (number, sign) = finite_nonnegative-bits temperature (ground arith) in
    record {
      row_index = r;
      position = p;
      column = g;
      same_row = e;
      in_batch = l;
      same_position = refl;
      same_column = refl;
      new_room = λ a. int_lt-Below g s.desc.max_new (ground arith);
      context_room = λ a. int_lt-Below (p + g) s.desc.max_seq_len (ground arith);
      is_number = number;
      not_negative = sign;
    }
slot_accepted-Accepts s row active (pos p) (negsuc g) temperature h = absurd (ground arith)
slot_accepted-Accepts s row active (negsuc p) gen_col temperature h = absurd (ground arith)

slot-room :
    (d : NmcDecodeServiceDesc) (active : Bool) (start_pos gen_col : ℤ)
    → slot_in_context d active start_pos gen_col ≡ true
    → active ≡ true
    → int_lt (pos (pos_part gen_col)) d.max_new ≡ true
unfolding slot_in_context
slot-room d active start_pos (pos n) h a = ground arith
slot-room d active start_pos (negsuc n) h a = ground arith

set_slot-slot_accepted :
    (s : NmcDecodeService) (row : ℤ) (active : Bool) (start_pos gen_col : ℤ) (temperature : Float)
    (seed : ℕ)
    → IsService s
    → (slot_accepted s row active start_pos gen_col temperature ≡ true
        → (t : NmcDecodeService) × (set_slot row active start_pos gen_col temperature seed s
            ≡ returned t)
          × IsService t
          × (t.active.at (pos_part row) ≡ active)
          × (t.start_pos.at (pos_part row) ≡ pos_part start_pos)
          × (t.gen_col.at (pos_part row) ≡ pos_part gen_col)
          × (t.temperature.at (pos_part row) ≡ temperature)
          × (t.seed.at (pos_part row) ≡ seed)
          × (t.finish.at (pos_part row) ≡ unfinished)
          × (t.active_rows ≡ count_active s.batch t.active.at)
          × ((b : ℕ)
              → (pos_part row == b) ≡ false
              → (t.active.at b ≡ s.active.at b)
                × (t.start_pos.at b ≡ s.start_pos.at b)
                × (t.gen_col.at b ≡ s.gen_col.at b)
                × (t.temperature.at b ≡ s.temperature.at b)
                × (t.seed.at b ≡ s.seed.at b)
                × (t.finish.at b ≡ s.finish.at b)))
      × (slot_accepted s row active start_pos gen_col temperature ≡ false
          → (e : RuntimeError) × (set_slot row active start_pos gen_col temperature seed s
              ≡ thrown e))
unfolding set_slot slot_accepted recompute_active_rows_locked
set_slot-slot_accepted s row active start_pos gen_col temperature seed inv = (
  λ accepted.
      let r = pos_part row in
      let same : (r == r) ≡ true = ==_refl r in
      let row_ok : (not (is_neg row) && below row s.batch) ≡ true = ground arith in
      let ctx : slot_in_context s.desc active start_pos gen_col ≡ true = ground arith in
      let temp : finite_nonnegative temperature ≡ true = ground arith in
      let written =
        slot_written r active (pos_part start_pos) (pos_part gen_col) temperature seed s in
      (
        record written { active_rows = count_active s.batch written.active.at },
        rw (row_ok, ctx, temp),
        record {
          accepted = inv.accepted;
          batch = inv.batch;
          active_size = inv.active_size;
          start_pos_size = inv.start_pos_size;
          gen_col_size = inv.gen_col_size;
          temperature_size = inv.temperature_size;
          seed_size = inv.seed_size;
          finish_size = inv.finish_size;
          counted = refl;
          room =
              λ b l h. ground (arith, inv.room b l, slot-room s.desc active start_pos gen_col ctx);
          running = λ b l h. ground (arith, inv.running b l);
        },
        rw same,
        rw same,
        rw same,
        rw same,
        rw same,
        rw same,
        refl,
        λ b other. rw other (refl, refl, refl, refl, refl, refl),
      ),
  λ refused. elim (Bool-cases (not (is_neg row) && below row s.batch)) [
    | inr bad ↦ (slot_row_out_of_range, rw bad)
    | inl good ↦ elim (Bool-cases (slot_in_context s.desc active start_pos gen_col)) [
      | inr bad ↦ (slot_outside_context, rw (good, bad))
      | inl good' ↦
          let bad : finite_nonnegative temperature ≡ false = ground arith in
          (temperature_negative, rw (good, good', bad))
    ]
  ],
)

-- On a service that satisfies its invariant `set_slot` succeeds for the arguments that it is for: a row of
-- the batch, a position and a column that are not negative, for an active row with the column below `max_new`
-- and the sum of both below `max_seq_len`, and a finite temperature that is not negative. Then the row has
-- these values, temperature and seed included, and no reason to have finished, every other row is as before,
-- the counter counts the active rows, and the invariant holds. For all other arguments it throws.
pub set_slot_lem :
    (s : NmcDecodeService) (row : ℤ) (active : Bool) (start_pos gen_col : ℤ) (temperature : Float)
    (seed : ℕ)
    → IsService s
    → (Accepts s row active start_pos gen_col temperature
        → (t : NmcDecodeService) × (set_slot row active start_pos gen_col temperature seed s
            ≡ returned t)
          × IsService t
          × (t.active.at (pos_part row) ≡ active)
          × (t.start_pos.at (pos_part row) ≡ pos_part start_pos)
          × (t.gen_col.at (pos_part row) ≡ pos_part gen_col)
          × (t.temperature.at (pos_part row) ≡ temperature)
          × (t.seed.at (pos_part row) ≡ seed)
          × (t.finish.at (pos_part row) ≡ unfinished)
          × (t.active_rows ≡ count_active s.batch t.active.at)
          × ((b : ℕ)
              → (pos_part row == b) ≡ false
              → (t.active.at b ≡ s.active.at b)
                × (t.start_pos.at b ≡ s.start_pos.at b)
                × (t.gen_col.at b ≡ s.gen_col.at b)
                × (t.temperature.at b ≡ s.temperature.at b)
                × (t.seed.at b ≡ s.seed.at b)
                × (t.finish.at b ≡ s.finish.at b)))
      × (¬ Accepts s row active start_pos gen_col temperature
          → (e : RuntimeError) × (set_slot row active start_pos gen_col temperature seed s
              ≡ thrown e))
set_slot_lem s row active start_pos gen_col temperature seed inv =
    let (accepted, refused) =
      set_slot-slot_accepted s row active start_pos gen_col temperature seed inv in
    (
      λ a. accepted (Accepts-slot_accepted s row active start_pos gen_col temperature a),
      λ no_. elim (Bool-cases (slot_accepted s row active start_pos gen_col temperature)) [
        | inr failing ↦ refused failing
        | inl passing ↦
            absurd (no_ (slot_accepted-Accepts s row active start_pos gen_col temperature passing))
      ],
    )

-- Where `set_slot` returns, its invariant is kept.
pub set_slot-IsService :
    (row : ℤ) (active : Bool) (start_pos gen_col : ℤ) (temperature : Float) (seed : ℕ)
    (s : NmcDecodeService) {t : NmcDecodeService}
    → set_slot row active start_pos gen_col temperature seed s ≡ returned t
    → IsService s
    → IsService t
set_slot-IsService row active start_pos gen_col temperature seed s {t} e inv =
    elim (Bool-cases (slot_accepted s row active start_pos gen_col temperature)) [
      | inl accepted ↦
          let (u, made, kept, _, _, _, _, _, _, _, _) =
            (set_slot-slot_accepted s row active start_pos gen_col temperature seed inv).0
              accepted in
          subst IsService (same u made) kept
      | inr refused ↦
          let (x, threw) =
            (set_slot-slot_accepted s row active start_pos gen_col temperature seed inv).1
              refused in
          cc
    ]
  where
    same :
        (u : NmcDecodeService)
        → set_slot row active start_pos gen_col temperature seed s ≡ returned u
        → u ≡ t
    same u made = cc
