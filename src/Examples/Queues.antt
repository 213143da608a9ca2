-- ===== src/Examples/Queues.antt =====
-- A channel with a key frame in front of much audio, for the theorem on a writer at its limit.
use live.Base.{
  ℕ, zero, suc, ◌≡◌, refl, true, false, none, List, [], ◌∷◌, ◌++◌, arith, length, replicate,
  length-replicate, take, drop, All,
}
use live.Av.{Packet}
use live.Rtmp.VirWriter.{Chan, VirWriter, put, blocked, write}
use live.Rtmp.VirWriter.Kept.{OneKind, all_kept, alone}
use live.Rtmp.VirWriter.Limit.{Left, write-full}

abbrev sound : Packet
sound = record {
  is_audio = true;
  is_video = false;
  is_metadata = false;
  time_stamp = 40;
  stream_id = 1;
  header = none;
  payload = 0xaf ∷ 1 ∷ 33 ∷ [];
}

abbrev frame : Packet
frame = record sound { is_audio = false; is_video = true; payload = 0x27 ∷ 1 ∷ [] }

abbrev waiting : List Packet
waiting = frame ∷ replicate 999 sound

OneKind-sounds : (n : ℕ) → All OneKind (replicate n sound)
OneKind-sounds zero = tt
OneKind-sounds (suc n) = (refl, OneKind-sounds n)

length-waiting : length waiting ≡ 1000
length-waiting = omega (arith, length-replicate 999 sound)

abbrev channel : Chan
channel = record { queue = waiting; sent = []; takes = 10 ∷ 0 ∷ 50 ∷ [] }

abbrev player : VirWriter
player = record { closed = false; packet_queue = channel }

first_stream : (n : ℕ) → All (λ p. p.stream_id ≡ 1) (replicate n sound)
first_stream zero = tt
first_stream (suc n) = (refl, first_stream n)

write-full_example :
    Left (λ p. p.stream_id ≡ 1) player sound
    × (write (record player { packet_queue = alone waiting [] }) sound
        ≡ put (record player {
          packet_queue = alone (drop 940 waiting ++ all_kept (take 940 waiting)) [];
        }))
    × (write
          (record player {
            packet_queue = record { queue = waiting; sent = []; takes = length waiting ∷ [] };
          })
          sound
        ≡ blocked)
write-full_example =
    write-full (λ p. p.stream_id ≡ 1) player sound refl (omega (arith, length-waiting))
      (omega (arith, length-waiting)) (omega (arith, length-waiting)) refl
      (refl, OneKind-sounds 999) (refl, first_stream 999)
