-- ===== src/Channel/Rendezvous.antt =====
-- The rendezvous of an input guard and an output guard of src/sched.c on one channel, in either
-- order.
use microcsp.Base.{◌≡◌, ◌≢◌, true, false, arith}
use microcsp.Machine.{Ptr, null, Machine}
use microcsp.Channel.{
  set_channel, enable_channel_input, disable_channel_input, enable_channel_output,
}

-- The output comes first, on a free channel: it finds no partner and leaves the sender and the
-- source in the channel. A receiver that then enables its input is ready at once, with the sender
-- as its partner, and changes nothing; when it disables its input it gets the sender and finds the
-- source still there.
pub output-input :
    (chan src receiver partner partner' : Ptr) (m : Machine)
    → (m.channel chan).waiting ≡ null
    → m.current ≢ null
    → receiver ≢ m.current
    → let sent = (enable_channel_output chan src m).2 in
      let n = record sent { current = receiver } in
      ((enable_channel_output chan src m).1 ≡ null)
      × (enable_channel_input chan partner n ≡ (true, m.current, n))
      × (disable_channel_input chan partner' n ≡ (true, m.current, n))
      × ((n.channel chan).src ≡ src)
unfolding enable_channel_output enable_channel_input disable_channel_input set_channel
output-input chan src receiver partner partner' m free sender other = ground arith

-- The input comes first, on a free channel: it is not ready, and waits in the channel. A sender
-- that then enables its output finds the receiver as its partner, and when the receiver disables
-- its input it gets the sender and finds the source in the channel.
pub input-output :
    (chan src sender partner partner' : Ptr) (m : Machine)
    → (m.channel chan).waiting ≡ null
    → m.current ≢ null
    → sender ≢ null
    → sender ≢ m.current
    → let waits = (enable_channel_input chan partner m).2 in
      let sends = record waits { current = sender } in
      let n = record ((enable_channel_output chan src sends).2) { current = m.current } in
      ((enable_channel_input chan partner m).0 ≡ false)
      × ((enable_channel_output chan src sends).1 ≡ m.current)
      × (disable_channel_input chan partner' n ≡ (true, sender, n))
      × ((n.channel chan).src ≡ src)
unfolding enable_channel_output enable_channel_input disable_channel_input set_channel
input-output chan src sender partner partner' m free receiver sender_ne other = ground arith

-- An input that is enabled on a free channel and disabled before an output comes leaves no trace:
-- it is not ready, and the channels are as before.
pub input-withdrawn :
    (chan partner partner' : Ptr) (m : Machine)
    → (m.channel chan).waiting ≡ null
    → m.current ≢ null
    → let waits = (enable_channel_input chan partner m).2 in
      let left = disable_channel_input chan partner' waits in
      (left.0 ≡ false) × (left.1 ≡ partner') × ((c : Ptr) → left.2.channel c ≡ m.channel c)
unfolding enable_channel_input disable_channel_input set_channel
input-withdrawn chan partner partner' m free receiver = ground arith
