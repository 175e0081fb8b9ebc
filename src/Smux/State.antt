-- ===== src/Smux/State.antt =====
-- webtor/src/smux.rs: `SmuxState`, the counters of flow control. The counters are u32.
use webtor_rs.Base.{ℕ, ◌-◌, ◌/◌, Bool, false, leb}
use webtor_rs.Base.Words.{as_u32, wrapping_add}
use webtor_rs.Smux.Segment.{SmuxUpdate, default_window}

pub record SmuxState : Type 0 where
  pub stream_id : ℕ
  -- Bytes read from the peer, written to the peer, and read since the last update was sent.
  pub self_read : ℕ
  pub self_write : ℕ
  pub self_increment : ℕ
  pub self_window : ℕ
  pub peer_consumed : ℕ
  pub peer_window : ℕ
  pub syn_sent : Bool
  pub syn_received : Bool

abbrev pub new : ℕ → SmuxState
new stream_id = record {
  stream_id = stream_id;
  self_read = 0;
  self_write = 0;
  self_increment = 0;
  self_window = default_window;
  peer_consumed = 0;
  peer_window = default_window;
  syn_sent = false;
  syn_received = false;
}

-- `self_write.saturating_sub(peer_consumed)`
abbrev pub inflight : SmuxState → ℕ
inflight st = st.self_write - st.peer_consumed

-- The sum wraps, as `+` on u32 does in a release build.
unfoldable pub can_send : SmuxState → ℕ → Bool
can_send st len = leb (wrapping_add (inflight st) (as_u32 len)) st.peer_window

unfoldable pub should_send_update : SmuxState → Bool
should_send_update st = leb (st.self_window / 2) st.self_increment

-- The state after `len` more bytes from the peer, and after the peer's window update.
abbrev pub count_read : ℕ → SmuxState → SmuxState
count_read len st = record st {
  self_read = wrapping_add st.self_read (as_u32 len);
  self_increment = wrapping_add st.self_increment (as_u32 len);
}

abbrev pub apply_update : SmuxUpdate → SmuxState → SmuxState
apply_update u st = record st { peer_consumed = u.consumed; peer_window = u.window }
