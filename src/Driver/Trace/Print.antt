-- ===== src/Driver/Trace/Print.antt =====
-- `read_trace` of LAB6_malloclab/mdriver.c on the text of a trace.
use mathlib.Core.List.{append_assoc, append-nil}
use native.Mathlib.Decide.{dec_lt}
use cmu_15_213_intro_to_comp.Prelude.{
  ℕ, zero, suc, ◌+◌, ◌≤◌, ◌<◌, ◌≡◌, refl, ap, ◌∙◌, true, none, some, List, [], ◌∷◌, ◌++◌, length,
  length-append, arith, lt→ltb,
}
use cmu_15_213_intro_to_comp.Driver.{TraceOp, alloc, realloc, free}
use cmu_15_213_intro_to_comp.Driver.Trace.{
  Token, text, number, Reader, reads, faults, scan_two, scan_one, max, stored, with_rest,
  after_request, read_requests, new_reader, all_ints, read_trace,
}

-- The lines of the requests.
abbrev pub print_ops : List TraceOp → List Token
print_ops [] = []
print_ops (alloc index size ∷ ops) = text b'a' ∷ number index ∷ number size ∷ print_ops ops
print_ops (realloc index size ∷ ops) = text b'r' ∷ number index ∷ number size ∷ print_ops ops
print_ops (free index ∷ ops) = text b'f' ∷ number index ∷ print_ops ops

abbrev pub print_trace : (sugg_heapsize num_ids num_ops weight : ℕ) → List TraceOp → List Token
print_trace sugg_heapsize num_ids num_ops weight ops =
    number sugg_heapsize ∷ number num_ids ∷ number num_ops ∷ number weight ∷ print_ops ops

-- The highest index of an allocation or reallocation, at least the given one.
abbrev pub highest : ℕ → List TraceOp → ℕ
highest k [] = k
highest k (alloc index size ∷ ops) = highest (max index k) ops
highest k (realloc index size ∷ ops) = highest (max index k) ops
highest k (free index ∷ ops) = highest k ops

stored-some :
    (num_ops : ℕ) (r : Reader) (op : TraceOp)
    → length r.ops < num_ops
    → stored num_ops r op ≡ some (record r { ops = r.ops ++ op ∷ [] })
unfolding stored
stored-some num_ops r op h = rw (lt→ltb (length r.ops) num_ops h) refl

read_requests-print_ops :
    (n num_ids num_ops : ℕ) (ops : List TraceOp) (r : Reader)
    → length (print_ops ops) < n
    → length r.ops + length ops ≡ num_ops
    → highest r.max_index ops + 1 ≡ num_ids
    → read_requests n num_ids num_ops r (print_ops ops) ≡ reads num_ids (r.ops ++ ops)
unfolding read_requests scan_two scan_one
read_requests-print_ops zero num_ids num_ops ops r fuel count ids = absurd (omega arith)
read_requests-print_ops (suc n) num_ids num_ops [] r fuel count ids = rw append-nil (ground arith)
read_requests-print_ops (suc n) num_ids num_ops (alloc index size ∷ ops) r fuel count ids =
    let r' : Reader = record r {
      index = index;
      size = some size;
      max_index = max index r.max_index;
    } in
    rw (stored-some num_ops r' (alloc index size) (omega arith)) (
      read_requests-print_ops n num_ids num_ops ops
        (record r' { ops = r.ops ++ alloc index size ∷ [] }) (omega arith)
        (omega (arith, length-append r.ops (alloc index size ∷ []))) ids
      ∙ ap (reads num_ids) (append_assoc r.ops (alloc index size ∷ []) ops))
read_requests-print_ops (suc n) num_ids num_ops (realloc index size ∷ ops) r fuel count ids =
    let r' : Reader = record r {
      index = index;
      size = some size;
      max_index = max index r.max_index;
    } in
    rw (stored-some num_ops r' (realloc index size) (omega arith)) (
      read_requests-print_ops n num_ids num_ops ops
        (record r' { ops = r.ops ++ realloc index size ∷ [] }) (omega arith)
        (omega (arith, length-append r.ops (realloc index size ∷ []))) ids
      ∙ ap (reads num_ids) (append_assoc r.ops (realloc index size ∷ []) ops))
read_requests-print_ops (suc n) num_ids num_ops (free index ∷ ops) r fuel count ids =
    let r' : Reader = record r { index = index } in
    rw (stored-some num_ops r' (free index) (omega arith)) (
      read_requests-print_ops n num_ids num_ops ops (record r' { ops = r.ops ++ free index ∷ [] })
        (omega arith) (omega (arith, length-append r.ops (free index ∷ []))) ids
      ∙ ap (reads num_ids) (append_assoc r.ops (free index ∷ []) ops))

-- read_trace of the text of a trace whose numbers are all below 2 ^ 31 returns its requests, if
-- the header has their number, and as number of ids one more than the highest index of an
-- allocation or reallocation.
pub read_trace-print_trace :
    (sugg_heapsize num_ids weight : ℕ) (ops : List TraceOp)
    → highest 0 ops + 1 ≡ num_ids
    → all_ints (print_trace sugg_heapsize num_ids (length ops) weight ops) ≡ true
    → read_trace (print_trace sugg_heapsize num_ids (length ops) weight ops) ≡ reads num_ids ops
unfolding read_trace
read_trace-print_trace sugg_heapsize num_ids weight ops ids ints = rw ints (
    read_requests-print_ops (suc (length (print_ops ops))) num_ids (length ops) ops new_reader
      (omega arith) (omega arith) ids)

stored-full :
    (num_ops : ℕ) (r : Reader) (op : TraceOp) → num_ops ≤ length r.ops → stored num_ops r op ≡ none
unfolding stored
stored-full num_ops r op h = ground arith

overflow_step :
    (n num_ids num_ops : ℕ) (op : TraceOp) (rest : List Token) (r : Reader)
    → (length r.ops < num_ops
        → read_requests n num_ids num_ops (record r { ops = r.ops ++ op ∷ [] }) rest ≡ faults)
    → after_request (read_requests n num_ids num_ops) (with_rest rest (stored num_ops r op))
      ≡ faults
overflow_step n num_ids num_ops op rest r later = elim (dec_lt (length r.ops) num_ops) [
  | yes h ↦ rw (stored-some num_ops r op h) (later h)
  | no h ↦ rw (stored-full num_ops r op (omega arith)) refl
]

read_requests-overflow :
    (n num_ids num_ops : ℕ) (ops : List TraceOp) (r : Reader)
    → length (print_ops ops) < n
    → num_ops < length r.ops + length ops
    → length r.ops ≤ num_ops
    → read_requests n num_ids num_ops r (print_ops ops) ≡ faults
unfolding read_requests scan_two scan_one
read_requests-overflow zero num_ids num_ops ops r fuel more le = absurd (omega arith)
read_requests-overflow (suc n) num_ids num_ops [] r fuel more le = absurd (omega arith)
read_requests-overflow (suc n) num_ids num_ops (alloc index size ∷ ops) r fuel more le =
    overflow_step n num_ids num_ops (alloc index size) (print_ops ops)
      (record r { index = index; size = some size; max_index = max index r.max_index })
      λ h.
        read_requests-overflow n num_ids num_ops ops _ (omega arith)
          (omega (arith, length-append r.ops (alloc index size ∷ [])))
          (omega (arith, length-append r.ops (alloc index size ∷ [])))
read_requests-overflow (suc n) num_ids num_ops (realloc index size ∷ ops) r fuel more le =
    overflow_step n num_ids num_ops (realloc index size) (print_ops ops)
      (record r { index = index; size = some size; max_index = max index r.max_index })
      λ h.
        read_requests-overflow n num_ids num_ops ops _ (omega arith)
          (omega (arith, length-append r.ops (realloc index size ∷ [])))
          (omega (arith, length-append r.ops (realloc index size ∷ [])))
read_requests-overflow (suc n) num_ids num_ops (free index ∷ ops) r fuel more le =
    overflow_step n num_ids num_ops (free index) (print_ops ops) (record r { index = index })
      λ h.
        read_requests-overflow n num_ids num_ops ops _ (omega arith)
          (omega (arith, length-append r.ops (free index ∷ [])))
          (omega (arith, length-append r.ops (free index ∷ [])))

-- read_trace of the text of a trace with more requests than its header says writes behind its
-- array of requests.
pub read_trace-overflow :
    (sugg_heapsize num_ids num_ops weight : ℕ) (ops : List TraceOp)
    → num_ops < length ops
    → all_ints (print_trace sugg_heapsize num_ids num_ops weight ops) ≡ true
    → read_trace (print_trace sugg_heapsize num_ids num_ops weight ops) ≡ faults
unfolding read_trace
read_trace-overflow sugg_heapsize num_ids num_ops weight ops more ints = rw ints (
    read_requests-overflow (suc (length (print_ops ops))) num_ids num_ops ops new_reader
      (omega arith) (omega arith) (omega arith))
