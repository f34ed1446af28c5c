-- ===== src/Tests/Worker.antt =====
-- Frames of a stream whose reads return one byte each.
use jude.Prelude.{
  ℕ, ◌≡◌, refl, none, some, Option, List, [], ◌∷◌, ◌++◌, ◌+◌, ◌==◌, Bool, false, concat,
  if◌then◌else◌, length, arith,
}
use jude.Worker.Loop.{
  Outcome, ok, raised, Arrow, Returned, a_table, CallMode, flat_map, returned, apply_udf, reply,
  serve, main,
}
use jude.Worker.{ctrl, read_frame, write_frame, write_ctrl}
use jude.Worker.Frames.{Reads, read_frame-write_frame, read_frame-write_ctrl}

abbrev one_byte : List ℕ → ℕ → ℕ
one_byte stream n = 1

one_byte-Reads : Reads one_byte
one_byte-Reads byte stream n h = (omega arith, omega arith)

two_bytes : write_frame (7 ∷ 8 ∷ []) ≡ some (2 ∷ 0 ∷ 0 ∷ 0 ∷ 7 ∷ 8 ∷ [])
unfolding write_frame
two_bytes = refl

read_frame-write_frame_example :
    read_frame one_byte ((2 ∷ 0 ∷ 0 ∷ 0 ∷ 7 ∷ 8 ∷ []) ++ (9 ∷ []))
    ≡ some ((length {A = ℕ} (7 ∷ 8 ∷ []), 7 ∷ 8 ∷ []), 9 ∷ [])
read_frame-write_frame_example =
    read_frame-write_frame one_byte one_byte-Reads (7 ∷ 8 ∷ []) (9 ∷ [])
      (2 ∷ 0 ∷ 0 ∷ 0 ∷ 7 ∷ 8 ∷ []) (omega arith) two_bytes

control_byte : write_ctrl (5 ∷ []) ≡ some (255 ∷ 255 ∷ 255 ∷ 255 ∷ 1 ∷ 0 ∷ 0 ∷ 0 ∷ 5 ∷ [])
unfolding write_ctrl
control_byte = refl

read_frame-write_ctrl_example :
    read_frame one_byte ((255 ∷ 255 ∷ 255 ∷ 255 ∷ 1 ∷ 0 ∷ 0 ∷ 0 ∷ 5 ∷ []) ++ (9 ∷ []))
    ≡ some ((ctrl, 5 ∷ []), 9 ∷ [])
read_frame-write_ctrl_example =
    read_frame-write_ctrl one_byte one_byte-Reads (5 ∷ []) (9 ∷ [])
      (255 ∷ 255 ∷ 255 ∷ 255 ∷ 1 ∷ 0 ∷ 0 ∷ 0 ∷ 5 ∷ []) control_byte

-- A stream that ends inside a frame.
cut_frame : read_frame one_byte (2 ∷ 0 ∷ 0 ∷ 0 ∷ 7 ∷ []) ≡ none
unfolding read_frame
cut_frame = refl

-- A worker that counts its calls and raises on every table that begins with 9.
abbrev plain : Arrow (List ℕ) (List ℕ) (List ℕ) ℕ
plain = record {
  from_ipc = λ bytes. ok bytes;
  to_ipc = λ t. t;
  from_batch = λ b. b;
  from_dict = λ d. ok d;
  concat_tables = λ ts. ok (concat ts);
  empty_table = [];
  first_column = λ t. ok t;
  result_table = λ vs. ok vs;
  type_error = 1 ∷ [];
  value_error = 2 ∷ [];
  struct_error = 3 ∷ [];
}

abbrev answer : ℕ → List ℕ → Outcome (Returned (List ℕ) (List ℕ) (List ℕ))
answer calls [] = ok (a_table (calls ∷ []))
answer calls (v ∷ vs) = if v == 9 then raised (7 ∷ []) else ok (a_table (calls ∷ []))

abbrev count_or_raise : ℕ → List ℕ → ℕ × Outcome (Returned (List ℕ) (List ℕ) (List ℕ))
count_or_raise calls t = (calls + 1, answer calls t)

abbrev no_values : ℕ → ℕ → ℕ × Outcome ℕ
no_values s v = (s, ok v)

abbrev never : List ℕ → Option Bool
never payload = some false

abbrev configure : List ℕ → Option (CallMode × ℕ)
configure payload = some (flat_map, 0)

abbrev three_batches : List (List ℕ)
three_batches = (5 ∷ []) ∷ (9 ∷ []) ∷ (6 ∷ []) ∷ []

abbrev greeting : List ℕ
greeting = 255 ∷ 255 ∷ 255 ∷ 255 ∷ 1 ∷ 0 ∷ 0 ∷ 0 ∷ 5 ∷ []

abbrev three_frames : List ℕ
three_frames = 1 ∷ 0 ∷ 0 ∷ 0 ∷ 5 ∷ 1 ∷ 0 ∷ 0 ∷ 0 ∷ 9 ∷ 1 ∷ 0 ∷ 0 ∷ 0 ∷ 6 ∷ []

-- The second reply is a report; the third call is counted all the same.
abbrev three_replies : List ℕ
three_replies =
    1 ∷ 0 ∷ 0 ∷ 0 ∷ 0 ∷ 255 ∷ 255 ∷ 255 ∷ 255 ∷ 1 ∷ 0 ∷ 0 ∷ 0 ∷ 7 ∷ 1 ∷ 0 ∷ 0 ∷ 0 ∷ 2 ∷ []

wrote_three_replies :
    main plain count_or_raise no_values one_byte never configure (5 ∷ []) (greeting ++ three_frames)
    ≡ some (returned, greeting ++ three_replies)
unfolding main serve apply_udf reply write_frame write_ctrl read_frame
wrote_three_replies = refl
