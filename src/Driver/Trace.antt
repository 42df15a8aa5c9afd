-- ===== src/Driver/Trace.antt =====
-- `read_trace` of LAB6_malloclab/mdriver.c. A trace file is the list of its words, each a number or a
-- text that is not empty and starts with no digit.
pub mod Print
use cmu_15_213_intro_to_comp.Prelude.{
  ℕ, zero, suc, ◌+◌, ◌^◌, Bool, true, false, ◌&&◌, Option, none, some, List, [], ◌∷◌, ◌++◌, ltb,
  ◌==◌, if◌then◌else◌, length,
}
use cmu_15_213_intro_to_comp.Driver.{TraceOp, alloc, realloc, free}

-- A text goes by its first character, the only one that is read.
pub data Token : Type 0 where
  text : (first : ℕ) → Token
  number : ℕ → Token

-- The variables of the loop; `size` is unset at first, and `op_index` is the number of requests.
pub record Reader : Type 0 where
  pub index : ℕ
  pub size : Option ℕ
  pub max_index : ℕ
  pub ops : List TraceOp

-- `faults` is a write behind the array of requests or the use of an unset variable, `exits` a bogus
-- type character, `asserts` an assertion that fails, `unfinished` a loop without rounds left.
-- `out_of_range` is a file with a number that an `int` does not hold: `%d` and `%u` leave some of them
-- undefined, and others are stored as a negative index or size.
pub data Read : Type 0 where
  reads : (num_ids : ℕ) → List TraceOp → Read
  faults exits asserts unfinished out_of_range : Read

-- `fscanf(tracefile, "%u %u", &index, &size)`: a text stops it and stays. The numbers are below
-- 2 ^ 31, see `read_trace`, so that they pass through `unsigned` and `int` unchanged.
unfoldable pub scan_two : Reader → List Token → Reader × List Token
scan_two r (number i ∷ number s ∷ rest) = (record r { index = i; size = some s }, rest)
scan_two r (number i ∷ []) = (record r { index = i }, [])
scan_two r (number i ∷ text t ∷ rest) = (record r { index = i }, text t ∷ rest)
scan_two r (text t ∷ rest) = (r, text t ∷ rest)
scan_two r [] = (r, [])

unfoldable pub scan_one : Reader → List Token → Reader × List Token
scan_one r (number i ∷ rest) = (record r { index = i }, rest)
scan_one r (text t ∷ rest) = (r, text t ∷ rest)
scan_one r [] = (r, [])

abbrev pub max : ℕ → ℕ → ℕ
max index max_index = if ltb max_index index then index else max_index

unfoldable pub stored : (num_ops : ℕ) → Reader → TraceOp → Option Reader
stored num_ops r op =
    if ltb (length r.ops) num_ops then some (record r { ops = r.ops ++ op ∷ [] }) else none

-- An allocation or a reallocation, by its constructor.
abbrev pub stored_sized :
    (num_ops : ℕ) → ((index size : ℕ) → TraceOp) → Reader → Option ℕ → Option Reader
stored_sized num_ops op r none = none
stored_sized num_ops op r (some size) =
    stored num_ops (record r { max_index = max r.index r.max_index }) (op r.index size)

abbrev pub with_rest : List Token → Option Reader → Option (Reader × List Token)
with_rest rest none = none
with_rest rest (some r) = some (r, rest)

abbrev pub read_sized :
    (num_ops : ℕ)
    → ((index size : ℕ) → TraceOp)
    → Reader × List Token
    → Option (Reader × List Token)
read_sized num_ops op (r, rest) = with_rest rest (stored_sized num_ops op r r.size)

abbrev pub read_free : (num_ops : ℕ) → Reader × List Token → Option (Reader × List Token)
read_free num_ops (r, rest) = with_rest rest (stored num_ops r (free r.index))

abbrev pub finished : (num_ids num_ops : ℕ) → Reader → Read
finished num_ids num_ops r =
    if r.max_index + 1 == num_ids
    then if num_ops == length r.ops then reads num_ids r.ops else asserts
    else asserts

abbrev pub after_request : (Reader → List Token → Read) → Option (Reader × List Token) → Read
after_request read none = faults
after_request read (some (r, rest)) = read r rest

-- The loop, with its rounds: every round takes a word.
unfoldable pub read_requests : ℕ → (num_ids num_ops : ℕ) → Reader → List Token → Read
read_requests zero num_ids num_ops r tokens = unfinished
read_requests (suc n) num_ids num_ops r [] = finished num_ids num_ops r
read_requests (suc n) num_ids num_ops r (number i ∷ rest) = exits
read_requests (suc n) num_ids num_ops r (text t ∷ rest) =
    let next = after_request (read_requests n num_ids num_ops) in
    if t == b'a'
    then next (read_sized num_ops alloc (scan_two r rest))
    else if t == b'r'
    then next (read_sized num_ops realloc (scan_two r rest))
    else if t == b'f'
    then next (read_free num_ops (scan_one r rest))
    else exits

abbrev pub new_reader : Reader
new_reader = record { index = 0; size = none; max_index = 0; ops = [] }

-- Every number is below 2 ^ 31.
abbrev pub all_ints : List Token → Bool
all_ints [] = true
all_ints (text t ∷ rest) = all_ints rest
all_ints (number n ∷ rest) = ltb n (2 ^ 31) && all_ints rest

-- The header is the suggested heap size, the number of ids, the number of requests and the weight.
-- Without it, variables are used that were never set.
abbrev pub read_header : List Token → Read
read_header (number sugg_heapsize ∷ number num_ids ∷ number num_ops ∷ number weight ∷ rest) =
    read_requests (suc (length rest)) num_ids num_ops new_reader rest
read_header tokens = faults

unfoldable pub read_trace : List Token → Read
read_trace tokens = if all_ints tokens then read_header tokens else out_of_range
