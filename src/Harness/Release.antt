-- ===== src/Harness/Release.antt =====
-- The check of the footer and the unlinking at the end of `test_free` in
-- LAB0_cprogramminglab/harness.c.
use cmu_15_213_intro_to_comp.Prelude.{
  ℕ, ◌≡◌, ◌≢◌, refl, ap, sym, ◌∙◌, Bool, false, true, ◌||◌, not, Option, none, some, List, ◌==◌,
  if◌then◌else◌,
}
use cmu_15_213_intro_to_comp.Harness.{
  Body, BlockEle, Memory, write_cell, Harness, done, ◌>>=◌, ◌>>◌, pure, store_block, magic_footer,
  note_error, report_event, Report, error, corruption, release, mark_free, count_down,
}
use cmu_15_213_intro_to_comp.Harness.Chain.{block, write_cell_other}
use cmu_15_213_intro_to_comp.Harness.Neighbours.{
  IsLink, IsLink-write_cell, IsLink-rewritten, rewritten, with_next, with_prev, rewritten_other,
  rewritten_self, link_next-done, link_prev-done,
}
use cmu_15_213_intro_to_comp.Harness.Reports.{noted_lem}
use cmu_15_213_intro_to_comp.Harness.Unlink.{Unlinks}

-- What the writes of `release` leave in the memory.
abbrev pub unlinked : Memory → (a q n : ℕ) → Option BlockEle → Memory
unlinked m a q n mark =
    write_cell (rewritten (rewritten (write_cell m a mark) q (with_next n)) n (with_prev q)) a none

pub unlinked-Unlinks :
    (m : Memory) (a q n : ℕ) (mark : Option BlockEle)
    → a ≢ q
    → a ≢ n
    → (q ≡ n → q ≡ 0)
    → Unlinks m (unlinked m a q n mark) a q n
unlinked-Unlinks m a q n mark aq an qn = record {
  others = λ x xa xq xn.
      write_cell_other _ a x none (λ e. xa (sym e))
      ∙ rewritten_other _ n (with_prev q) x xn
      ∙ rewritten_other _ q (with_next n) x xq
      ∙ write_cell_other m a x mark (λ e. xa (sym e));
  before = λ next prev b ne e.
      write_cell_other _ a q none aq
      ∙ rewritten_other _ n (with_prev q) q (λ s. ne (qn s))
      ∙ rewritten_self _ q (with_next n) (block next prev b) ne
          (write_cell_other m a q mark aq ∙ e);
  after = λ next prev b ne e.
      write_cell_other _ a n none an
      ∙ rewritten_self _ n (with_prev q) (block next prev b) ne (
          rewritten_other _ q (with_next n) n (λ s. ne (s ∙ qn (sym s)))
          ∙ write_cell_other m a n mark an
          ∙ e);
}

or_false : (b : Bool) → b ≡ (b || false)
or_false true = refl
or_false false = refl

or_true : (b : Bool) → true ≡ (b || true)
or_true true = refl
or_true false = refl

-- The check of the footer.
footer_checked :
    (s : Harness) (footer : ℕ)
    → (messages : List Report) × ((if footer == magic_footer
            then pure tt
            else report_event error corruption >> note_error)
          s
        ≡ done tt (record s {
          error_occurred = s.error_occurred || not (footer == magic_footer);
          printed = messages;
        }))
footer_checked s footer = by_test (footer == magic_footer)
  where
    by_test :
        (intact : Bool)
        → (messages : List Report) × ((if intact
                then pure tt
                else report_event error corruption >> note_error)
              s
            ≡ done tt
                (record s { error_occurred = s.error_occurred || not intact; printed = messages }))
    by_test true =
        (s.printed, ap (λ x. done tt (record s { error_occurred = x })) (or_false s.error_occurred))
    by_test false =
        let (messages, e) = noted_lem corruption s in
        (
          messages,
          e
              ∙ ap (λ x. done tt (record s { error_occurred = x; printed = messages }))
                  (or_true s.error_occurred),
        )

pub release-middle :
    (s : Harness) (a q n : ℕ) (b : Body)
    → IsLink s.memory q
    → IsLink s.memory n
    → a ≢ q
    → a ≢ n
    → (q ≡ n → q ≡ 0)
    → (messages : List Report) × (release a (block n q b) s
        ≡ done tt (record s {
          memory = unlinked s.memory a q n (some (mark_free (block n q b)));
          allocated = if q == 0 then n else s.allocated;
          allocated_count = count_down s.allocated_count;
          error_occurred = s.error_occurred || not (b.footer == magic_footer);
          printed = messages;
        }))
unfolding release store_block
release-middle s a q n b lq ln aq an qn =
    let (messages, e) = footer_checked s b.footer in
    let mark : Option BlockEle = some (mark_free (block n q b)) in
    let s1 : Harness = record s {
      memory = write_cell s.memory a mark;
      error_occurred = s.error_occurred || not (b.footer == magic_footer);
      printed = messages;
    } in
    let s2 : Harness = record s1 {
      memory = rewritten s1.memory q (with_next n);
      allocated = if q == 0 then n else s.allocated;
    } in
    (
      messages,
      rw
          (
            e,
            ◌>>=◌,
            link_next-done q n s1 (IsLink-write_cell s.memory a q mark aq lq),
            ◌>>=◌,
            link_prev-done n q s2 (
                IsLink-rewritten s1.memory q n (with_next n) qn
                  (IsLink-write_cell s.memory a n mark an ln)),
          )
          refl,
    )
