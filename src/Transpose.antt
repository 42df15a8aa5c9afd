-- ===== src/Transpose.antt =====
-- LAB4_cachelab/trans.c: the blocked matrix transposes. The matrices are separate arrays, given as
-- functions from row and column; a write or read out of range clears `in_range`.
pub mod Loops
pub mod Square
pub mod Other
pub mod Narrow
pub mod Simple
mod Tests
use cmu_15_213_intro_to_comp.Prelude.{
  ℕ, zero, suc, ◌+◌, ◌-◌, ◌*◌, ◌/◌, ◌%◌, Bool, true, false, ◌&&◌, ltb, ◌==◌, if◌then◌else◌, Option,
  none, some,
}
use Prim.Native.Nat.{min}

abbrev pub Matrix : Type 0
Matrix = ℕ → ℕ → ℕ

-- The result and the locals that outlive an iteration.
pub record State : Type 0 where
  b : Matrix
  diag : ℕ
  is_diag : Bool
  in_range : Bool

-- `for(x = 0; x < n; ++x)`
unfoldable pub loop {ℓ} : {S : Type ℓ} → ℕ → (ℕ → S → S) → S → S
loop zero body s = s
loop (suc n) body s = body n (loop n body s)

-- The rounds of `for(x = 0; x < n; x += w)`.
abbrev pub rounds : (n w : ℕ) → ℕ
rounds n w = (n + w - 1) / w

abbrev pub set : Matrix → ℕ → ℕ → ℕ → Matrix
set b r c v r' c' = if r' == r then if c' == c then v else b r' c' else b r' c'

-- `int A[N][M], int B[M][N]`: the parameters of every transpose.
module _ (m n : ℕ) (a : Matrix) where
  -- `B[r][c] = A[c][r];`
  unfoldable pub assign : ℕ → ℕ → State → State
  assign r c s = record s {
    b = set s.b r c (a c r);
    in_range = if ltb r m then if ltb c n then s.in_range else false else false;
  }

  -- The bodies of the loops over `l`, for 32 rows and columns and for other sizes.
  unfoldable pub cell_32 : (i j k l : ℕ) → State → State
  cell_32 i j k l s = if i + k == j + l then record s { diag = i + k } else assign (j + l) (i + k) s

  unfoldable pub cell_any : (i j k l : ℕ) → State → State
  cell_any i j k l s =
      if i + k == j + l then record s { diag = i + k; is_diag = true } else assign (j + l) (i + k) s

  -- The body of the loop over `k` for 32 rows and columns.
  unfoldable pub row_32 : (i j k : ℕ) → State → State
  row_32 i j k s =
      let s' = loop 8 (cell_32 i j k) s in if i == j then assign s'.diag s'.diag s' else s'

  -- The body of the loop over `k` for other sizes.
  unfoldable pub row_any : (i j k : ℕ) → State → State
  row_any i j k s =
      let s' = loop 4 (cell_any i j k) (record s { is_diag = false }) in
      if s'.is_diag then assign s'.diag s'.diag s' else s'

  -- `B[r][c] = v;`
  unfoldable pub assign_value : (r c v : ℕ) → State → State
  assign_value r c v s = record s {
    b = set s.b r c v;
    in_range = if ltb r m then if ltb c n then s.in_range else false else false;
  }

  -- The body of the loop over `l` for 61 by 67, with `temp_position` and `temp_value`; -1 is `none`.
  unfoldable pub cell_61 : (k l : ℕ) → State × Option (ℕ × ℕ) → State × Option (ℕ × ℕ)
  cell_61 k l (s, temp) = if k == l then (s, some (l, a l l)) else (assign l k s, temp)

  unfoldable pub write_temp : State × Option (ℕ × ℕ) → State
  write_temp (s, none) = s
  write_temp (s, some (position, value)) = assign_value position position value s

  -- The body of the loop over `k` for 61 by 67.
  unfoldable pub row_61 : (j k : ℕ) → State → State
  row_61 j k s = write_temp (loop (min 16 (m - j)) (λ l. cell_61 k (j + l)) (s, none))

  -- The two outer loops around a row.
  unfoldable pub blocks : (w : ℕ) → ((i j k : ℕ) → State → State) → State → State
  blocks w row =
      loop (rounds n w) (λ i'. loop (rounds m w) (λ j'. loop w (λ k. row (w * i') (w * j') k)))

  unfoldable pub transpose_32 : State → State
  transpose_32 = blocks 8 row_32

  unfoldable pub transpose_any : State → State
  transpose_any = blocks 4 row_any

  unfoldable pub transpose_61 : State → State
  transpose_61 = loop (rounds n 16) (λ i'.
      loop (rounds m 16) (λ j'. loop (min 16 (n - 16 * i')) (λ k. row_61 (16 * j') (16 * i' + k))))

-- `transpose_submit`
unfoldable pub transpose_submit : (m n : ℕ) → Matrix → State → State
transpose_submit m n a s =
    if m == 32 && n == 32
    then transpose_32 m n a s
    else if m == 61 && n == 67
    then transpose_61 m n a s
    else transpose_any m n a s

-- `trans`
unfoldable pub trans : (m n : ℕ) → Matrix → State → State
trans m n a = loop n (λ i. loop m (λ j. assign m n a j i))

-- `is_transpose`, with the rounds that are left of each loop; i and j count up.
unfoldable pub row_equal : (left i j : ℕ) → (a b : Matrix) → Bool
row_equal zero i j a b = true
row_equal (suc left) i j a b = if a i j == b j i then row_equal left i (j + 1) a b else false

unfoldable pub rows_equal : (left m i : ℕ) → (a b : Matrix) → Bool
rows_equal zero m i a b = true
rows_equal (suc left) m i a b = if row_equal m i 0 a b then rows_equal left m (i + 1) a b else false

unfoldable pub is_transpose : (m n : ℕ) → (a b : Matrix) → Bool
is_transpose m n a b = rows_equal n m 0 a b
