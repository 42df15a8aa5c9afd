-- ===== src/Harness.antt =====
-- LAB0_cprogramminglab/harness.c, the malloc and free of the tests, and report_event of report.c.
-- An address is a number below 2 ^ 64, and 0 is NULL. A block is the header, the payload and the
-- footer at the address of its header; a cell that holds nothing was never allocated or is free.
-- The bytes that the tests write into a payload are part of the block, and so is its footer, which
-- a write beyond the payload may change. What `malloc` returns and whether `random` lets the
-- allocation fail are arguments.
pub mod Chain
pub mod Alloc
pub mod Unlink
pub mod Neighbours
pub mod Search
pub mod Reports
pub mod Release
pub mod Free
pub mod Settles
pub mod Errors
mod Tests
use cmu_15_213_intro_to_comp.Prelude.{
  ℕ, zero, suc, ◌+◌, ◌-◌, ◌*◌, ◌%◌, ◌^◌, ◌≡◌, Bool, true, false, ◌||◌, not, Option, none, some,
  List, [], ◌∷◌, ◌++◌, ltb, leb, ◌==◌, if◌then◌else◌, replicate,
}
use cmu_15_213_intro_to_comp.Prelude.Int.{ℤ, pos, negsuc}

abbrev pub magic_header : ℕ
magic_header = 0xdead_beef

abbrev pub magic_free : ℕ
magic_free = 0xffff_ffff

abbrev pub magic_footer : ℕ
magic_footer = 0xbeef_dead

abbrev pub fill_char : ℕ
fill_char = 0x55

-- What a block holds besides its links and its mark.
pub record Body : Type 0 where
  pub payload_size : ℕ
  pub payload : List ℕ
  pub footer : ℕ

pub record BlockEle : Type 0 where
  pub next : ℕ
  pub prev : ℕ
  pub header : ℕ
  pub body : Body

abbrev pub Memory : Type 0
Memory = ℕ → Option BlockEle

unfoldable pub write_cell : Memory → ℕ → Option BlockEle → Memory
write_cell m a cell x = if a == x then cell else m x

-- The texts that the harness reports.
pub data Report : Type 0 where
  free_null unallocated unallocated_or_corrupted no_malloc returning_null : Report
  no_more_memory no_free attempt_to_free_null corruption : Report
  raised : List ℕ → Report

pub data Level : Type 0 where
  warn error fatal : Level

-- The variables of harness.c, `verblevel` and what was printed. `alarm_set` says that a call of
-- `alarm` is pending.
pub record Harness : Type 0 where
  pub memory : Memory
  pub allocated : ℕ
  pub allocated_count : ℕ
  pub cautious_mode : Bool
  pub noallocate_mode : Bool
  pub called_malloc : Bool
  pub error_occurred : Bool
  pub error_message : List ℕ
  pub jmp_ready : Bool
  pub time_limited : Bool
  pub alarm_set : Bool
  pub verblevel : ℤ
  pub printed : List Report

abbrev pub init_harness : (verblevel : ℤ) → Harness
init_harness verblevel = record {
  memory = λ a. none;
  allocated = 0;
  allocated_count = 0;
  cautious_mode = true;
  noallocate_mode = false;
  called_malloc = false;
  error_occurred = false;
  error_message = [];
  jmp_ready = false;
  time_limited = false;
  alarm_set = false;
  verblevel = verblevel;
  printed = [];
}

-- `fault` is a write through NULL or outside a block that was just allocated, `unfinished` a loop
-- that ran out of rounds. `stray` is an access through a pointer to no allocated block: the bytes
-- there, which may be those of a payload, are not described, and the model stops where the source
-- may go on.
pub data Ending (A : Type 0) : Type 0 where
  done : A → Harness → Ending A
  exited fault stray unfinished : Harness → Ending A

abbrev pub Act : Type 0 → Type 0
Act A = Harness → Ending A

abbrev pub pure : {A : Type 0} → A → Act A
pure a s = done a s

infixl 5 ◌>>=◌ ◌>>◌
abbrev pub ◌>>=◌ : {A B : Type 0} → Act A → (A → Act B) → Act B
◌>>=◌ m f s = elim (m s) [
  | done a s' ↦ f a s'
  | exited s' ↦ exited s'
  | fault s' ↦ fault s'
  | stray s' ↦ stray s'
  | unfinished s' ↦ unfinished s'
]

abbrev pub ◌>>◌ : {B : Type 0} → Act (Unit {0}) → Act B → Act B
m >> k = m >>= λ _. k

pub >>=-done :
    {A B : Type 0} (m : Act A) (f : A → Act B) (s s' : Harness) (a : A)
    → m s ≡ done a s'
    → (m >>= f) s ≡ f a s'
>>=-done m f s s' a e = rw (e, ◌>>=◌)

abbrev pub modify : (Harness → Harness) → Act (Unit {0})
modify f s = done tt (f s)

-- `error_occurred = true;`
unfoldable pub note_error : Act (Unit {0})
note_error s = done tt (record s { error_occurred = true })

abbrev pub level_of : Level → ℕ
level_of warn = 2
level_of error = 1
level_of fatal = 0

-- `verblevel < level` is false.
unfoldable pub reaches_level : ℤ → ℕ → Bool
reaches_level (pos n) level = leb level n
reaches_level (negsuc n) level = false

abbrev pub is_fatal : Level → Bool
is_fatal warn = false
is_fatal error = false
is_fatal fatal = true

unfoldable pub report_event : Level → Report → Act (Unit {0})
report_event level message s =
    if not (reaches_level s.verblevel (level_of level))
    then done tt s
    else let s' : Harness = record s { printed = s.printed ++ message ∷ [] } in
      if is_fatal level then exited s' else done tt s'

abbrev pub from_cell : Option BlockEle → Act BlockEle
from_cell none s = stray s
from_cell (some b) s = done b s

-- A read or a write through the pointer to a block.
unfoldable pub load_block : ℕ → Act BlockEle
load_block a s = if a == 0 then stray s else from_cell (s.memory a) s

unfoldable pub store_block : ℕ → Option BlockEle → Act (Unit {0})
store_block a cell s = done tt (record s { memory = write_cell s.memory a cell })

-- The sizes of the header, and of the header and the footer.
abbrev pub header_bytes : ℕ
header_bytes = 32

abbrev pub overhead : ℕ
overhead = 40

-- `(size_t) p - sizeof(block_ele_t)`
unfoldable pub block_of : ℕ → ℕ
block_of p = (p + (2 ^ 64 - header_bytes)) % 2 ^ 64

-- `while (ab && !found)`
unfoldable pub find_allocated : ℕ → (b ab : ℕ) → Act Bool
find_allocated zero b ab s = if ab == 0 then done false s else unfinished s
find_allocated (suc n) b ab s =
    (if ab == 0 then pure false else (do
      e ← load_block ab
      let rest = find_allocated n b e.next
      if ab == b then pure true else rest))
      s

-- `if (!found)`
abbrev pub when_found : Bool → Act (Unit {0})
when_found true = pure tt
when_found false = report_event error unallocated >> note_error

-- The search of the cautious mode.
abbrev pub check_if : (cautious : Bool) (b : ℕ) → Act (Unit {0})
check_if true b s = (find_allocated s.allocated_count b s.allocated >>= when_found) s
check_if false b s = done tt s

unfoldable pub check_allocated : ℕ → Act (Unit {0})
check_allocated b s = check_if s.cautious_mode b s

unfoldable pub find_header : ℕ → Act ℕ
find_header p = do
  if p == 0 then report_event error free_null >> note_error else pure tt
  check_allocated (block_of p)
  b ← load_block (block_of p)
  if b.header == magic_header
      then pure tt
      else report_event error unallocated_or_corrupted >> note_error
  pure (block_of p)

unfoldable pub clear_called_malloc : Act (Unit {0})
clear_called_malloc s = done tt (record s { called_malloc = false })

unfoldable pub has_called_malloc : Act Bool
has_called_malloc s = done s.called_malloc (record s { called_malloc = false })

-- The block in front of the list, and the one behind it. Blocks lie at different addresses below
-- 2 ^ 64, so the count does not wrap.
unfoldable pub push_block : (b size fill : ℕ) → Act (Unit {0})
push_block b size fill s =
    (do
      store_block b (
          some (record {
            next = s.allocated;
            prev = 0;
            header = magic_header;
            body = record {
              payload_size = size;
              payload = replicate size fill;
              footer = magic_footer;
            };
          }))
      if s.allocated == 0 then pure tt else (do
        e ← load_block s.allocated
        store_block s.allocated (some (record e { prev = b })))
      modify λ s'. record s' { allocated = b; allocated_count = s'.allocated_count + 1 })
      s

-- The header, the footer and the payload are written into a block of
-- `size + sizeof(block_ele_t) + sizeof(size_t)` bytes, which the sum as a size_t is only if it
-- does not wrap.
unfoldable pub place_new : (b size fill : ℕ) → Act ℕ
place_new b size fill =
    if b == 0
    then report_event fatal no_more_memory >> (note_error >> fault)
    else if leb (2 ^ 64) (size + overhead)
    then fault
    else push_block b size fill >> pure (b + header_bytes)

-- `if (noallocate_mode)` and `if (fail_allocation())`
abbrev pub allocate_if : (forbidden fails : Bool) → Act ℕ → Act ℕ
allocate_if true fails place = report_event fatal no_malloc >> pure 0
allocate_if false true place = report_event warn returning_null >> pure 0
allocate_if false false place = place

unfoldable pub allocate_memory :
    (fails : Bool) (malloc : ℕ → ℕ) (size : ℕ) (should_zero_memory : Bool) → Act ℕ
allocate_memory fails malloc size should_zero_memory s =
    allocate_if s.noallocate_mode fails
      (place_new (malloc ((size + overhead) % 2 ^ 64)) size
        (if should_zero_memory then 0 else fill_char))
      (record s { called_malloc = true })

unfoldable pub test_malloc : (fails : Bool) (malloc : ℕ → ℕ) (size : ℕ) → Act ℕ
test_malloc fails malloc size = allocate_memory fails malloc size false

unfoldable pub test_calloc : (fails : Bool) (malloc : ℕ → ℕ) (num size : ℕ) → Act ℕ
test_calloc fails malloc num size = allocate_memory fails malloc (num * size % 2 ^ 64) true

-- `b->magic_header = MAGICFREE;` and the writes to the footer and the payload.
unfoldable pub mark_free : BlockEle → BlockEle
mark_free b = record b {
  header = magic_free;
  body = record {
    payload_size = b.body.payload_size;
    payload = replicate b.body.payload_size fill_char;
    footer = magic_free;
  };
}

-- `if (bp) bp->next = bn; else allocated = bn;`
unfoldable pub link_next : (bp bn : ℕ) → Act (Unit {0})
link_next bp bn =
    if bp == 0
    then modify (λ s. record s { allocated = bn })
    else do e ← load_block bp; store_block bp (some (record e { next = bn }))

-- `if (bn) bn->prev = bp;`
unfoldable pub link_prev : (bn bp : ℕ) → Act (Unit {0})
link_prev bn bp =
    if bn == 0
    then pure tt
    else do e ← load_block bn; store_block bn (some (record e { prev = bp }))

-- `allocated_count --`, of a size_t
abbrev pub count_down : ℕ → ℕ
count_down zero = 2 ^ 64 - 1
count_down (suc n) = n

unfoldable pub release : ℕ → BlockEle → Act (Unit {0})
release a b = do
  if b.body.footer == magic_footer then pure tt else report_event error corruption >> note_error
  store_block a (some (mark_free b))
  link_next b.prev b.next
  link_prev b.next b.prev
  store_block a none
  modify λ s. record s { allocated_count = count_down s.allocated_count }

-- `if (noallocate_mode)`
abbrev pub free_if : (forbidden : Bool) → Act (Unit {0}) → Act (Unit {0})
free_if true free = report_event fatal no_free
free_if false free = free

unfoldable pub freeing : ℕ → Act (Unit {0})
freeing p =
    if p == 0
    then report_event error attempt_to_free_null >> note_error
    else (do a ← find_header p; b ← load_block a; release a b)

unfoldable pub test_free : ℕ → Act (Unit {0})
test_free p s = free_if s.noallocate_mode (freeing p) s

unfoldable pub allocation_check : Act ℕ
allocation_check s = done s.allocated_count s

unfoldable pub set_cautious_mode : Bool → Act (Unit {0})
set_cautious_mode cautious s = done tt (record s { cautious_mode = cautious })

unfoldable pub set_noallocate_mode : Bool → Act (Unit {0})
set_noallocate_mode noallocate s = done tt (record s { noallocate_mode = noallocate })

unfoldable pub error_check : Act Bool
error_check s = done s.error_occurred (record s { error_occurred = false })

-- `if (time_limited) { alarm(0); time_limited = false; }`
unfoldable pub stop_alarm : Harness → Harness
stop_alarm s = record s {
  alarm_set = if s.time_limited then false else s.alarm_set;
  time_limited = false;
}

-- The initial return of `sigsetjmp`.
unfoldable pub exception_setup : (limit_time : Bool) → Act Bool
exception_setup limit_time s = done true (record s {
  jmp_ready = true;
  alarm_set = limit_time || s.alarm_set;
  time_limited = limit_time || s.time_limited;
})

-- The return of `sigsetjmp` by a jump.
unfoldable pub exception_return : Act Bool
exception_return = do
  modify λ s. stop_alarm (record s { jmp_ready = false })
  message ← (λ s. done s.error_message s)
  report_event error (raised message)
  modify λ s. record s { error_message = [] }
  pure false

unfoldable pub exception_cancel : Act (Unit {0})
exception_cancel s = done tt (record (stop_alarm s) { jmp_ready = false; error_message = [] })

-- The jump goes on with the other return of `sigsetjmp`.
unfoldable pub trigger_exception : (msg : List ℕ) → Act Bool
trigger_exception msg s =
    let s' : Harness = record s { error_occurred = true; error_message = msg } in
    if s.jmp_ready then exception_return s' else exited s'
