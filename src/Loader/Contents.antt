-- ===== src/Loader/Contents.antt =====
-- What `loadSegment` (src/toy/execution_context.cpp) puts into guest memory.
use toy_isa_v1_5_interpreter.Base.{
  ℕ, suc, ◌+◌, ◌-◌, ◌≤◌, ◌≡◌, refl, sym, ap, ◌∙◌, arith, List, [], ◌∷◌, ◌++◌, length, length-append,
  length-replicate, replicate, set, ltb, ge→ltb, lt→ltb, ltb→ge, true, false, ◌==◌, ==_iff,
  Bool-cases, inl, inr, u32,
}
use toy_isa_v1_5_interpreter.Memory.{
  load_bytes, store_bytes, check_bounds, writable_range, fill_range,
}
use toy_isa_v1_5_interpreter.Memory.Access.{InBounds, check_bounds-ok}
use toy_isa_v1_5_interpreter.Memory.Bytes.{length-load_bytes, load_bytes-store_bytes}
use toy_isa_v1_5_interpreter.Checked.{ok}
use toy_isa_v1_5_interpreter.Machine.{Context}
use toy_isa_v1_5_interpreter.Machine.Monad.{returned}
use toy_isa_v1_5_interpreter.Loader.{Segment, copy_data, clear_rest, load_segment}

-- The bytes of the file, and zeros up to the size in memory.
abbrev pub image : Segment → List ℕ
image segment =
    load_bytes segment.contents 0 segment.file_size
    ++ replicate (segment.memory_size - segment.file_size) 0

-- Two writes in a row.
pub store_bytes-append :
    (xs bytes ys : List ℕ) (a : ℕ)
    → store_bytes (store_bytes bytes a xs) (a + length xs) ys ≡ store_bytes bytes a (xs ++ ys)
unfolding store_bytes
store_bytes-append [] bytes ys a =
    let e : a + 0 ≡ a = omega arith in ap (λ (n : ℕ). store_bytes bytes n ys) e
store_bytes-append (x ∷ xs) bytes ys a =
    let e : a + suc (length xs) ≡ a + 1 + length xs = omega arith in
    ap (λ (n : ℕ). store_bytes (store_bytes (set bytes a x) (a + 1) xs) n ys) e
    ∙ store_bytes-append xs (set bytes a x) ys (a + 1)

-- The memory after both copies.
abbrev pub with_image : Segment → Context → Context
with_image segment c =
    let start = u32 segment.virtual_address in
    record c {
      memory = record (c.memory) {
        bytes =
            store_bytes
              (store_bytes c.memory.bytes start (load_bytes segment.contents 0 segment.file_size))
              (start + segment.file_size) (replicate (segment.memory_size - segment.file_size) 0);
      };
    }

pub load_segment_returns :
    (segment : Segment) (c : Context)
    → segment.file_size ≤ segment.memory_size
    → segment.file_size ≤ length segment.contents
    → InBounds c.memory (u32 segment.virtual_address) segment.memory_size
    → load_segment segment c ≡ returned tt (with_image segment c)
unfolding load_segment copy_data clear_rest writable_range fill_range store_bytes load_bytes
load_segment_returns segment c h k inside =
    let start : ℕ = u32 segment.virtual_address in
    let file : ℕ = segment.file_size in
    let memory : ℕ = segment.memory_size in
    let sized : ltb memory file ≡ false = ge→ltb memory file h in
    let there : ltb (length segment.contents) file ≡ false =
      ge→ltb (length segment.contents) file k in
    let bounds : check_bounds c.memory start memory ≡ ok tt =
      check_bounds-ok c.memory start memory inside in
    elim (Bool-cases (memory == 0)) [
      | inl empty ↦
          let m-zero : memory ≡ 0 = (==_iff memory 0).0 empty in
          let f-zero : file ≡ 0 = omega arith in rw (sized, bounds, m-zero, f-zero) refl
      | inr some ↦ elim (Bool-cases (file == 0)) [
        | inl none ↦
            let f-zero : file ≡ 0 = (==_iff file 0).0 none in
            let more : ltb 0 memory ≡ true = lt→ltb 0 memory (ground arith) in
            rw (sized, bounds, some, f-zero, more) refl
        | inr filled ↦ elim (Bool-cases (ltb file memory)) [
          | inl more ↦ rw (sized, bounds, some, filled, there, more) refl
          | inr exact ↦
              let rest : memory - file ≡ 0 = omega (arith, ltb→ge file memory exact) in
              rw (sized, bounds, some, filled, there, exact, rest) refl
        ]
      ]
    ]

-- A segment that lies inside the memory, with no more bytes in the file than in memory and with all
-- of them given by ELFIO, is loaded: its bytes of the file stand at its address, and behind them zeros
-- up to its size in memory.
pub load_segment_lem :
    (segment : Segment) (c : Context)
    → segment.file_size ≤ segment.memory_size
    → segment.file_size ≤ length segment.contents
    → InBounds c.memory (u32 segment.virtual_address) segment.memory_size
    → (c' : Context) × (load_segment segment c ≡ returned tt c')
      × (load_bytes c'.memory.bytes (u32 segment.virtual_address) segment.memory_size
          ≡ image segment)
load_segment_lem segment c h k inside =
    let start : ℕ = u32 segment.virtual_address in
    let new : List ℕ = load_bytes segment.contents 0 segment.file_size in
    let zeros : List ℕ = replicate (segment.memory_size - segment.file_size) 0 in
    let new-length : length new ≡ segment.file_size =
      length-load_bytes segment.contents 0 segment.file_size in
    let total : length (new ++ zeros) ≡ segment.memory_size =
      length-append new zeros
      ∙ omega (
        arith,
        new-length,
        length-replicate {A = ℕ} (segment.memory_size - segment.file_size) 0,
      ) in
    (
      with_image segment c,
      load_segment_returns segment c h k inside,
      ap
            (λ (n : ℕ).
              load_bytes (store_bytes (store_bytes c.memory.bytes start new) (start + n) zeros)
                start segment.memory_size)
            (sym new-length)
          ∙ ap (λ (b : List ℕ). load_bytes b start segment.memory_size)
              (store_bytes-append new c.memory.bytes zeros start)
          ∙ ap (λ (n : ℕ). load_bytes (store_bytes c.memory.bytes start (new ++ zeros)) start n)
              (sym total)
          ∙ load_bytes-store_bytes c.memory.bytes start (new ++ zeros)
              (omega (arith, total, inside.0)),
    )
