-- ===== src/Loader/Truncated.antt =====
-- `loadSegment` (src/toy/execution_context.cpp) on a file that was cut off.
use toy_isa_v1_5_interpreter.Base.{
  ◌≤◌, ◌<◌, ◌≡◌, ◌↔◌, refl, sym, subst, ◌∙◌, arith, length, ltb, ltb→lt, ltb→ge, lt→ltb, ge→ltb,
  true, false, ◌==◌, Bool-cases, inl, inr, u32,
}
use toy_isa_v1_5_interpreter.Checked.{ErrorCode, Checked, ok, fail}
use toy_isa_v1_5_interpreter.Memory.{check_bounds, writable_range}
use toy_isa_v1_5_interpreter.Memory.Access.{InBounds, check_bounds-ok, check_bounds-InBounds}
use toy_isa_v1_5_interpreter.Machine.{Context}
use toy_isa_v1_5_interpreter.Machine.Monad.{Outcome, returned, thrown, undefined, simulation}
use toy_isa_v1_5_interpreter.Loader.{Segment, copy_data, load_segment}
use toy_isa_v1_5_interpreter.Loader.Contents.{with_image, load_segment_returns}

-- The header of the segment promises more bytes than ELFIO points to, and passes all tests.
pub record IsTruncated (segment : Segment) (c : Context) : Type 0 where
  pub sized : segment.file_size ≤ segment.memory_size
  pub inside : InBounds c.memory (u32 segment.virtual_address) segment.memory_size
  pub short : length segment.contents < segment.file_size

load_segment-short :
    (segment : Segment) (c : Context) → IsTruncated segment c → load_segment segment c ≡ undefined
unfolding load_segment copy_data writable_range
load_segment-short segment c h =
    let sized : ltb segment.memory_size segment.file_size ≡ false =
      ge→ltb segment.memory_size segment.file_size h.sized in
    let bounds : check_bounds c.memory (u32 segment.virtual_address) segment.memory_size ≡ ok tt =
      check_bounds-ok c.memory (u32 segment.virtual_address) segment.memory_size h.inside in
    let some : (segment.memory_size == 0) ≡ false = ground (arith, h.sized, h.short) in
    let filled : (segment.file_size == 0) ≡ false = ground (arith, h.short) in
    let short : ltb (length segment.contents) segment.file_size ≡ true =
      lt→ltb (length segment.contents) segment.file_size h.short in
    rw (sized, bounds, some, filled, short) refl

abbrev IsDefined : Outcome (Unit {0}) → Type 0
IsDefined undefined = ⊥
IsDefined _ = Unit

-- Where the segment does not fit, or is given in full, all is defined.
load_segment-IsDefined :
    (segment : Segment) (c : Context)
    → load_segment segment c ≡ undefined
    → (r : Outcome (Unit {0})) → load_segment segment c ≡ r
    → IsDefined r
    → ⊥
load_segment-IsDefined segment c e r f defined = subst IsDefined (sym f ∙ e) defined

load_segment-IsTruncated :
    (segment : Segment) (c : Context) → load_segment segment c ≡ undefined → IsTruncated segment c
unfolding load_segment copy_data writable_range
load_segment-IsTruncated segment c e =
    elim (Bool-cases (ltb segment.memory_size segment.file_size)) [
      | inl large ↦ absurd (
          load_segment-IsDefined segment c e (thrown (simulation ErrorCode.incorrect_binary_file) c)
            (rw large refl) tt)
      | inr sized ↦
          within (ltb→ge segment.memory_size segment.file_size sized) sized
            (check_bounds c.memory (u32 segment.virtual_address) segment.memory_size) refl
    ]
  where
    within :
        segment.file_size ≤ segment.memory_size
        → ltb segment.memory_size segment.file_size ≡ false
        → (r : Checked (Unit {0}))
        → check_bounds c.memory (u32 segment.virtual_address) segment.memory_size ≡ r
        → IsTruncated segment c
    within fits sized (fail x) bounds =
        absurd (
          load_segment-IsDefined segment c e (thrown (simulation x) c) (rw (sized, bounds) refl) tt)
    within fits sized (ok tt) bounds =
        let inside : InBounds c.memory (u32 segment.virtual_address) segment.memory_size =
          check_bounds-InBounds c.memory (u32 segment.virtual_address) segment.memory_size
            (omega arith) bounds in
        elim (Bool-cases (ltb (length segment.contents) segment.file_size)) [
          | inl short ↦ record {
            sized = fits;
            inside = inside;
            short = ltb→lt (length segment.contents) segment.file_size short;
          }
          | inr full ↦ absurd (
              load_segment-IsDefined segment c e (returned tt (with_image segment c))
                (load_segment_returns segment c fits
                  (ltb→ge (length segment.contents) segment.file_size full) inside)
                tt)
        ]

pub load_segment-undefined_iff :
    (segment : Segment) (c : Context) → (load_segment segment c ≡ undefined) ↔ IsTruncated segment c
load_segment-undefined_iff segment c =
    (load_segment-IsTruncated segment c, load_segment-short segment c)
