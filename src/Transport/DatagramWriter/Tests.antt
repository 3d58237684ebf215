-- ===== src/Transport/DatagramWriter/Tests.antt =====
-- Runs of the datagram writer.
use sippet.Base.{refl, [], ◌∷◌, codes, NetResult, ok, pending}
use sippet.Transport.DatagramWriter.{DatagramWriter, write_frame, did_write_frame}
use sippet.Transport.DatagramWriter.Delivery.{Delivered}
use sippet.Transport.DatagramWriter.History.{FrameRun, FrameRun-Delivered, begun, wrote, reported}

-- The first frame has to wait for the socket; when it reports, the second one goes out too.
abbrev both_sent : DatagramWriter
both_sent = record {
  error = ok;
  pending_messages = [];
  script = [];
  sent = codes "ab" ∷ codes "c" ∷ [];
  ran = (1, ok) ∷ (2, ok) ∷ [];
}

frame_run : FrameRun (codes "ab" ∷ codes "c" ∷ []) (1 ∷ 2 ∷ []) both_sent
unfolding write_frame did_write_frame
frame_run =
    reported (NetResult.count 2) refl refl
      (wrote (codes "c") 2 (wrote (codes "ab") 1 (begun (pending ∷ NetResult.count 1 ∷ []))))

FrameRun-Delivered_example : Delivered (codes "ab" ∷ codes "c" ∷ []) (1 ∷ 2 ∷ []) both_sent
FrameRun-Delivered_example = FrameRun-Delivered frame_run
