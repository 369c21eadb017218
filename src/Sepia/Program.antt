-- ===== src/Sepia/Program.antt =====
-- `src/main.c` of the sepia filter.
pub mod Runs
use Prim.Native.String.{String}
use low_level_programming.Base.{ℕ, zero, suc, ◌+◌, Option, none, some, List, [], ◌∷◌, ◌++◌}
use low_level_programming.Image.{Pixel, Malloc}
use low_level_programming.Image.Bmp.{
  ReadStatus, read_ok, ReadBmp, input, Written, out_of_range, write_error, write_ok, output,
}
use low_level_programming.Sepia.Bitmap.{
  Picture, ReadBmpStatus, WriteBmpStatus, write_bmp_ok, write_bmp_error, FileProcStatus,
  file_proc_ok, file_proc_error, from_bmp, to_bmp, clear_images_memory, read_status_names,
  write_status_names, file_proc_status_names, read_file, write_file,
}
use low_level_programming.Sepia.Float.{Float}
use low_level_programming.Sepia.Filter.{filter_c, filter_asm}

-- The answers to the four calls that open a file, in their order.
pub record Opened : Type 0 where
  pub in_file : Option (List ℕ)
  pub src : Option (List ℕ)
  pub out_file1 : Option ℕ
  pub out_file2 : Option ℕ

-- How the program ends: the exit code, what is printed to stderr, and the bytes in the two files
-- that it writes, if they were opened.
pub record Exit : Type 0 where
  pub code : ℕ
  pub stderr : List String
  pub written1 : Option (List ℕ)
  pub written2 : Option (List ℕ)

abbrev pub exit : ℕ → List String → Option (List ℕ) → Option (List ℕ) → Option Exit
exit c messages w1 w2 = some (record { code = c; stderr = messages; written1 = w1; written2 = w2 })

-- `fprintf(stderr, "\n\n%s\n\n", name)`
abbrev pub report : String → List String
report name = "\n\n" ∷ name ∷ "\n\n" ∷ []

abbrev pub file_report : FileProcStatus → List String
file_report file_proc_ok = []
file_report file_proc_error = report (file_proc_status_names file_proc_error)

abbrev pub write_report : WriteBmpStatus → List String
write_report write_bmp_ok = []
write_report write_bmp_error = report (write_status_names write_bmp_error)

-- A file that is opened to be written is empty.
abbrev pub touched : Option ℕ → Option (List ℕ)
touched none = none
touched (some room) = some []

-- A loop that runs a filter in each of its rounds and keeps the last result. Each round has its own
-- answers of `malloc`; what the rounds before have allocated is not freed.
unfoldable pub iterate :
    (Malloc → Option Picture) → (ℕ → Malloc) → (left k : ℕ) → Option Picture → Option Picture
iterate filter mem zero k last = last
iterate filter mem (suc left) k last = elim (filter (mem k)) [
  | none ↦ none
  | some out ↦ iterate filter mem left (k + 1) (some out)
]

abbrev pub amount_of_iters : ℕ
amount_of_iters = 500

-- The status of writing and the file.
pub record Saved : Type 0 where
  pub status : WriteBmpStatus
  pub bytes : List ℕ

abbrev pub saved_as : Written → Option Saved
saved_as out_of_range = none
saved_as (write_error out) = some (record { status = write_bmp_error; bytes = out.written })
saved_as (write_ok out) = some (record { status = write_bmp_ok; bytes = out.written })

-- The end of `main`, by the two statuses.
abbrev pub finish : (img out1 out2 : Picture) → Saved → Saved → Option Exit
finish img out1 out2 s1 s2 = elim s1.status [
  | write_bmp_ok ↦ elim s2.status [
    | write_bmp_ok ↦ clear_images_memory (some img ∷ []) (exit 0 [] (some s1.bytes) (some s2.bytes))
    | write_bmp_error ↦
        clear_images_memory (some img ∷ some out1 ∷ some out2 ∷ []) (
          exit 1 (write_report s1.status ++ write_report s2.status) (some s1.bytes) (some s2.bytes))
  ]
  | write_bmp_error ↦
      clear_images_memory (some img ∷ some out1 ∷ some out2 ∷ [])
        (exit 1 (write_report s1.status ++ write_report s2.status) (some s1.bytes) (some s2.bytes))
]

-- From the two calls of `to_bmp` on.
unfoldable pub save : (img out1 out2 : Picture) (room1 room2 : ℕ) → Option Exit
save img out1 out2 room1 room2 = elim (saved_as (to_bmp (output [] room1) out1)) [
  | none ↦ none
  | some s1 ↦ elim (saved_as (to_bmp (output [] room2) out2)) [
    | none ↦ none
    | some s2 ↦ finish img out1 out2 s1 s2
  ]
]

-- The answers of `malloc` in `from_bmp` and in the rounds of the two loops.
pub record Memory : Type 0 where
  pub first : Malloc
  pub c_rounds : ℕ → Malloc
  pub asm_rounds : ℕ → Malloc

module _ (float : Float) (mem : Memory) (opened : Opened) where
  -- From the loops on. The times that are measured, and printed to stdout, are left out.
  unfoldable pub transform : Picture → (room1 room2 : ℕ) → Option Exit
  transform img room1 room2 =
      elim (iterate (λ m. filter_c float m img) mem.c_rounds amount_of_iters 0 none) [
        | none ↦ none
        | some out1 ↦
            elim (iterate (λ m. filter_asm float m img) mem.asm_rounds amount_of_iters 0 none) [
              | none ↦ none
              | some out2 ↦ save img out1 out2 room1 room2
            ]
      ]

  -- From the two calls of `write_file` on.
  unfoldable pub open_targets : Picture → Option Exit
  open_targets img = elim opened.out_file1 [
    | none ↦ clear_images_memory (some img ∷ []) (
        exit 1 (file_report file_proc_error ++ file_report (write_file opened.out_file2)) none
          (touched opened.out_file2))
    | some room1 ↦ elim opened.out_file2 [
      | none ↦
          clear_images_memory (some img ∷ []) (exit 1 (file_report file_proc_error) (some []) none)
      | some room2 ↦ transform img room1 room2
    ]
  ]

  -- From `from_bmp` on, which reads the first stream. A successful `from_bmp` sets the image.
  unfoldable pub load : List ℕ → Option Exit
  load bytes = elim (from_bmp mem.first (input bytes bytes)) [
    | none ↦ none
    | some r ↦ elim r.status [
      | read_ok ↦ elim r.image [ none ↦ none | some img ↦ open_targets img ]
      | s ↦ clear_images_memory (r.image ∷ []) (exit 1 (report (read_status_names s)) none none)
    ]
  ]

  -- Only the status of the second stream is looked at; reading the first, if it is null, is a fault.
  unfoldable pub main : Option Exit
  main = elim opened.src [
    | none ↦ exit 1 (report (file_proc_status_names file_proc_error)) none none
    | some again ↦ elim opened.in_file [ none ↦ none | some bytes ↦ load bytes ]
  ]
