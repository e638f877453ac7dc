-- ===== src/Protocol/Delivery.antt =====
-- A message between the two ends of a connection: what one writes and the other reads.
use zo_tunnel.Prelude.{
  ℕ, ◌≤◌, ◌≡◌, ap, ◌∙◌, true, Bool, List, [], ◌++◌, append-nil, ok, length, subst, arith,
}
use zo_tunnel.Protocol.{Message, max_payload_size, msg_type}
use zo_tunnel.Protocol.Stream.{Stream, write_all}
use zo_tunnel.Protocol.Codec.{Wire, WireLaws, encode_payload, frame, write_message, read_message}
use zo_tunnel.Protocol.RoundTrip.{IsText, decode-encode_payload, read-frame}

-- What has arrived, what was sent, and whether more can be written.
abbrev pub arriving : List ℕ → List ℕ → Bool → Stream
arriving bytes out o = record { incoming = bytes; outgoing = out; writable = o }

-- The message can be encoded, within the maximum of the protocol.
abbrev pub Fits : Wire → Message → Type 0
Fits w m =
    (payload : List ℕ) × (encode_payload w m ≡ ok payload) × (length payload ≤ max_payload_size)

module _ (w : Wire) (m : Message) (fits : Fits w m) where
  abbrev pub bytes : List ℕ
  bytes = frame w (msg_type m) fits.0

  pub write-Fits :
      (s : Stream)
      → s.writable ≡ true
      → write_message w m s ≡ (ok tt, record s { outgoing = s.outgoing ++ bytes })
  unfolding write_message write_all
  write-Fits s open_ = let (payload, enc, le) = fits in ground arith

  pub read-Fits :
      WireLaws w
      → IsText m
      → (out : List ℕ) (o : Bool)
      → read_message w (arriving bytes out o) ≡ (ok m, arriving [] out o)
  read-Fits laws t out o =
      let (payload, enc, le) = fits in
      subst (λ b. read_message w (arriving b out o) ≡ (ok m, arriving [] out o)) (append-nil bytes)
        (read-frame w laws (msg_type m) payload [] out o le
          ∙ ap (λ r. (r, arriving [] out o)) (decode-encode_payload w laws m payload t enc))
