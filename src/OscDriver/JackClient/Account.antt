-- ===== src/OscDriver/JackClient/Account.antt =====
-- The counters of `JackClient` (JackClient.cpp): what was created and not sent waits in the ring.
mod Outcome
pub mod Push
mod Process
use ni_traktor_kontrol_f.Base.{ℕ, ◌≡◌, some, ok}
use ni_traktor_kontrol_f.Jack.{JackRing, JackMidi}
use ni_traktor_kontrol_f.OscDriver.InputChange.{F1InputChange}
use ni_traktor_kontrol_f.OscDriver.JackClient.{
  JackClient, Answers, new_client, set_channel, connect, disconnect, push_event, process_cb,
}
use ni_traktor_kontrol_f.OscDriver.JackClient.Account.Outcome.{After}
use ni_traktor_kontrol_f.OscDriver.JackClient.Account.Process.{Keeps}

module _ (j : JackRing) where
  -- What a client can become: a new one whose channel is set, which connects and disconnects, gets
  -- changes and is asked for its messages, without a failed assertion or a lost message.
  pub data Reachable (k : JackMidi) : JackClient j → Type 0 where
    created : Reachable k (new_client j)
    on_channel :
        {c : JackClient j} (channel : ℕ) → Reachable k c → Reachable k (set_channel j channel c)
    connected : {c : JackClient j} (a : Answers) → Reachable k c → Reachable k (connect j a c).1
    disconnected :
        {c d : JackClient j} (m n : ℕ) → disconnect j m n c ≡ ok d → Reachable k c → Reachable k d
    pushed :
        {c d : JackClient j} (event : F1InputChange)
        → push_event j event c ≡ ok d
        → Reachable k c
        → Reachable k d
    processed :
        {c d : JackClient j} (port out : k.Port)
        → process_cb j k (some port) c ≡ ok (0, out, d)
        → Reachable k c
        → Reachable k d
