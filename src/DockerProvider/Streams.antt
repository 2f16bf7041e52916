-- ===== src/DockerProvider/Streams.antt =====
-- internal/provider/dockerprov/engine.go: demuxLogs and the loop of pullImage.
pub mod Frames
use action_runner_cluster.Prelude.{
  Bool, List, Option, Text, [], drop, false, if◌then◌else◌, leb, length, ltb, nat_beq, nat_eq, none,
  not, replicate, some, suc, take, text_eq, true, zero, ℕ, ◌&&◌, ◌*◌, ◌++◌, ◌+◌, ◌-◌, ◌==◌, ◌^◌,
  ◌∷◌,
}
use action_runner_cluster.DockerProvider.{Reply, replied, engine_error, broken}

-- binary.BigEndian.Uint32
unfoldable pub big_endian : Text → ℕ
big_endian [] = 0
big_endian (a ∷ []) = 0
big_endian (a ∷ b ∷ []) = 0
big_endian (a ∷ b ∷ c ∷ []) = 0
big_endian (a ∷ b ∷ c ∷ d ∷ s) = a * 2 ^ 24 + b * 2 ^ 16 + c * 2 ^ 8 + d

unfoldable pub max_frame : ℕ
max_frame = 2 ^ 20

unfoldable pub cap_frame : ℕ → ℕ
unfolding max_frame
cap_frame n = if ltb max_frame n then max_frame else n

-- A header starts with the stream, 0 to 2, and three zeros.
unfoldable pub is_header : Text → Bool
is_header [] = false
is_header (a ∷ []) = false
is_header (a ∷ b ∷ []) = false
is_header (a ∷ b ∷ c ∷ []) = false
is_header (a ∷ b ∷ c ∷ d ∷ s) = leb a 2 && nat_beq b 0 && nat_beq c 0 && nat_beq d 0

-- A frame that is cut short: the buffer is written whole, so with zeros for what did not come.
unfoldable pub padded : ℕ → Text → Text
padded size s = s ++ replicate (size - length s) 0

unfoldable pub put_front : Text → Option Text → Option Text
put_front front none = none
put_front front (some out) = some (front ++ out)

-- The loop of demuxLogs over what is left to read, a reader without errors; none would mean that
-- the fuel ran out.
unfoldable pub demux : ℕ → Text → Option Text
unfolding big_endian cap_frame is_header padded put_front
demux zero s = none
demux (suc fuel) s =
    let size : ℕ = cap_frame (big_endian (drop 4 s)) in
    let body : Text = drop 8 s in
    let rest : Option Text = demux fuel (drop size body) in
    if ltb (length s) 8
    then some []
    else if not (is_header s)
    then some s
    else if ltb (length body) size
    then some (padded size body)
    else put_front (take size body) rest

-- `demuxLogs`
unfoldable pub demux_logs : Text → Option Text
unfolding demux
demux_logs s = demux (suc (length s)) s

-- What decoding the stream of a pull gives, message by message, until its end.
pub data PullMessage : Type 0 where
  undecodable : PullMessage
  message : (error : Text) → PullMessage

-- The loop of pullImage: an error in a message is the pull's.
unfoldable pub drain : List PullMessage → Bool
drain [] = true
drain (undecodable ∷ more) = false
drain (message error ∷ more) = if error == [] then drain more else false

-- `pullImage`, its success told from its errors.
unfoldable pub pull_image : Reply (List PullMessage) → Bool
unfolding drain
pull_image (replied messages) = drain messages
pull_image (engine_error status) = false
pull_image broken = false
