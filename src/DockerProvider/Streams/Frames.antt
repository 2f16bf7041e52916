-- ===== src/DockerProvider/Streams/Frames.antt =====
-- demuxLogs ends on every input, gives back what was framed, and what it makes of a frame that is
-- cut short.
use mathlib.Core.List.{append_assoc}
use action_runner_cluster.Prelude.{
  All, Bool-cases, List, Text, [], ap, arith, cut, drop, false, inl, inr, leb, length,
  length-append, ltb, refl, replicate, some, suc, sym, take, true, zero, ℕ, ◌%◌, ◌*◌, ◌++◌, ◌+◌,
  ◌-◌, ◌/◌, ◌<◌, ◌^◌, ◌∙◌, ◌∷◌, ◌≡◌, ◌≤◌,
}
use action_runner_cluster.DockerProvider.Streams.{
  big_endian, max_frame, cap_frame, is_header, padded, put_front, demux, demux_logs,
}

length-drop : {A : Type 0} (n : ℕ) (xs : List A) → length (drop n xs) ≡ length xs - n
length-drop zero xs = omega arith
length-drop (suc n) [] = omega arith
length-drop (suc n) (x ∷ xs) = omega (arith, length-drop n xs)

demux_total : (fuel : ℕ) (s : Text) → length s < fuel → (out : Text) × (demux fuel s ≡ some out)
unfolding demux put_front
demux_total zero s enough = absurd (omega arith)
demux_total (suc fuel) s enough = elim (Bool-cases (ltb (length s) 8)) [
  | inl short ↦ ([], rw short refl)
  | inr long ↦ elim (Bool-cases (is_header s)) [
    | inr raw ↦ (s, rw (long, raw) refl)
    | inl framed ↦
        let size : ℕ = cap_frame (big_endian (drop 4 s)) in
        elim (Bool-cases (ltb (length (drop 8 s)) size)) [
          | inl cut ↦ (padded size (drop 8 s), rw (long, framed, cut) refl)
          | inr whole ↦
              let (out, e) =
                demux_total fuel (drop size (drop 8 s))
                  (ground (arith, length-drop size (drop 8 s), length-drop 8 s)) in
              (take size (drop 8 s) ++ out, rw (long, framed, whole, e) refl)
        ]
  ]
]

-- demuxLogs ends, whatever the daemon sends: every frame takes eight bytes at least.
pub demux_logs_ends : (s : Text) → (out : Text) × (demux_logs s ≡ some out)
unfolding demux_logs
demux_logs_ends s = demux_total (suc (length s)) s (omega arith)

-- A frame as the daemon writes it, of a stream and a payload.
abbrev pub size_bytes : ℕ → Text
size_bytes n = (n / 2 ^ 24) ∷ (n / 2 ^ 16 % 2 ^ 8) ∷ (n / 2 ^ 8 % 2 ^ 8) ∷ (n % 2 ^ 8) ∷ []

abbrev pub header : ℕ → ℕ → Text
header stream n = stream ∷ 0 ∷ 0 ∷ 0 ∷ size_bytes n

abbrev pub frame : ℕ × Text → Text
frame f = header f.0 (length f.1) ++ f.1

abbrev pub frames : List (ℕ × Text) → Text
frames [] = []
frames (f ∷ fs) = frame f ++ frames fs

abbrev pub payloads : List (ℕ × Text) → Text
payloads [] = []
payloads (f ∷ fs) = f.1 ++ payloads fs

-- A stream of Docker, and a payload that is not cut by the bound on frames.
abbrev pub IsFrame : ℕ × Text → Type 0
IsFrame f = (f.0 ≤ 2) × (length f.1 ≤ 2 ^ 20)

take-append : {A : Type 0} (xs ys : List A) → take (length xs) (xs ++ ys) ≡ xs
take-append [] ys = refl
take-append (x ∷ xs) ys = ap (λ t. x ∷ t) (take-append xs ys)

drop-append : {A : Type 0} (xs ys : List A) → drop (length xs) (xs ++ ys) ≡ ys
drop-append [] ys = refl
drop-append (x ∷ xs) ys = drop-append xs ys

big_endian-size_bytes :
    (n : ℕ) (s : Text) → n ≤ 2 ^ 20 → cap_frame (big_endian (size_bytes n ++ s)) ≡ n
unfolding big_endian cap_frame max_frame
big_endian-size_bytes n s small =
    let e : n / 2 ^ 24 * 2 ^ 24
          + n / 2 ^ 16 % 2 ^ 8 * 2 ^ 16
          + n / 2 ^ 8 % 2 ^ 8 * 2 ^ 8
          + n % 2 ^ 8
        ≡ n =
      omega arith in
    rw e (ground (arith, small))

-- One frame and what follows.
one_frame :
    (fuel : ℕ) (f : ℕ × Text) (s : Text)
    → IsFrame f
    → demux (suc fuel) (frame f ++ s) ≡ put_front f.1 (demux fuel s)
unfolding demux is_header
one_frame fuel f s h =
    let n : ℕ = length f.1 in
    let long : ltb (length (frame f ++ s)) 8 ≡ false = ground arith in
    let valid : leb f.0 2 ≡ true = ground (arith, h.0) in
    let size : cap_frame (big_endian (size_bytes n ++ (f.1 ++ s))) ≡ n =
      big_endian-size_bytes n (f.1 ++ s) h.1 in
    let whole : ltb (length (f.1 ++ s)) n ≡ false = ground (arith, length-append f.1 s) in
    rw (long, valid, size, whole, drop-append f.1 s, take-append f.1 s)
      (refl {a = put_front f.1 (demux fuel s)})

frames_from :
    (fs : List (ℕ × Text)) (fuel : ℕ)
    → All IsFrame fs
    → length fs < fuel
    → demux fuel (frames fs) ≡ some (payloads fs)
unfolding demux put_front
frames_from [] zero ok enough = absurd (omega arith)
frames_from [] (suc fuel) ok enough = refl
frames_from (f ∷ fs) zero ok enough = absurd (omega arith)
frames_from (f ∷ fs) (suc fuel) ok enough =
    one_frame fuel f (frames fs) ok.0 ∙ rw (frames_from fs fuel ok.1 (omega arith)) refl

length-frames : (fs : List (ℕ × Text)) → length fs ≤ length (frames fs)
length-frames [] = omega arith
length-frames (f ∷ fs) = omega (arith, length-frames fs, length-append (frame f) (frames fs))

-- What the daemon writes in frames of a stream numbered up to 2, of at most 2^20 bytes each, comes
-- out of demuxLogs as the payloads in their order, with no header left in and no byte lost.
pub demux_logs-frames :
    (fs : List (ℕ × Text)) → All IsFrame fs → demux_logs (frames fs) ≡ some (payloads fs)
unfolding demux_logs
demux_logs-frames fs ok =
    frames_from fs (suc (length (frames fs))) ok (omega (arith, length-frames fs))

cut_frame :
    (fuel stream size : ℕ) (body : Text)
    → stream ≤ 2
    → size ≤ 2 ^ 20
    → length body < size
    → demux (suc fuel) (header stream size ++ body)
      ≡ some (body ++ replicate (size - length body) 0)
unfolding demux is_header padded
cut_frame fuel stream size body valid_stream small cut =
    let long : ltb (length (header stream size ++ body)) 8 ≡ false = ground arith in
    let valid : leb stream 2 ≡ true = ground arith in
    let read : cap_frame (big_endian (size_bytes size ++ body)) ≡ size =
      big_endian-size_bytes size body small in
    let short : ltb (length body) size ≡ true = ground arith in
    rw (long, valid, read, short) (refl {a = some (body ++ replicate (size - length body) 0)})

cut_from :
    (fs : List (ℕ × Text)) (fuel stream size : ℕ) (body : Text)
    → All IsFrame fs
    → length fs < fuel
    → stream ≤ 2
    → size ≤ 2 ^ 20
    → length body < size
    → demux fuel (frames fs ++ (header stream size ++ body))
      ≡ some (payloads fs ++ (body ++ replicate (size - length body) 0))
unfolding put_front
cut_from [] zero stream size body ok enough valid small cut = absurd (omega arith)
cut_from [] (suc fuel) stream size body ok enough valid small cut =
    cut_frame fuel stream size body valid small cut
cut_from (f ∷ fs) zero stream size body ok enough valid small cut = absurd (omega arith)
cut_from (f ∷ fs) (suc fuel) stream size body ok enough valid small cut =
    rw (append_assoc (frame f) (frames fs) (header stream size ++ body)) (
      one_frame fuel f (frames fs ++ (header stream size ++ body)) ok.0
      ∙ rw (cut_from fs fuel stream size body ok.1 (omega arith) valid small cut) (
          ap some
            (sym (append_assoc f.1 (payloads fs) (body ++ replicate (size - length body) 0)))))

-- Frames of the three streams, of at most 2 ^ 20 bytes each, and a last one like them that is cut
-- short by the end of what is read: after the payloads before it its
-- buffer is written whole, so that the text ends with a zero byte for every byte that did not come.
pub demux_logs_cut_short :
    (fs : List (ℕ × Text)) (stream size : ℕ) (body : Text)
    → All IsFrame fs
    → stream ≤ 2
    → size ≤ 2 ^ 20
    → length body < size
    → demux_logs (frames fs ++ (header stream size ++ body))
      ≡ some (payloads fs ++ (body ++ replicate (size - length body) 0))
unfolding demux_logs
demux_logs_cut_short fs stream size body ok valid small cut =
    cut_from fs (suc (length (frames fs ++ (header stream size ++ body)))) stream size body ok
      (omega (arith, length-frames fs, length-append (frames fs) (header stream size ++ body)))
      valid small cut
