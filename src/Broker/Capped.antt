-- ===== src/Broker/Capped.antt =====
-- The deadline of an operation holds while the driver sets its own.
use payments_boilerplate.Base.{
  ℕ, ◌≤◌, ◌≡◌, refl, Option, none, some, List, [], ◌∷◌, arith, Result, ok, err,
}
use payments_boilerplate.Receiver.Inbox.{Cause}
use payments_boilerplate.Broker.Deadline.{
  DeadlineConn, Refusals, earlier, put_read, put_write, then_write, apply_locked, set_deadline,
  set_read_deadline, set_write_deadline, limit, Call, sets, sets_read, sets_write, call, calls,
}

-- Both directions of the socket have a deadline, no later than the operation's.
pub record IsCapped (deadline : ℕ) (c : DeadlineConn) : Type 0 where
  pub set : c.operation_deadline ≡ deadline
  pub some_read : 1 ≤ c.conn.read
  pub read : c.conn.read ≤ deadline
  pub some_write : 1 ≤ c.conn.write
  pub write : c.conn.write ≤ deadline

earlier-le : (t d : ℕ) → 1 ≤ d → (1 ≤ earlier t d) × (earlier t d ≤ d)
unfolding earlier
earlier-le t d h = ground arith

-- A direction that is refused keeps its deadline.
put_read-IsCapped :
    (f : Option Cause) (t d : ℕ) (c : DeadlineConn)
    → 1 ≤ d
    → IsCapped d c
    → IsCapped d (put_read f (earlier t c.operation_deadline) c).1
put_read-IsCapped (some e) t d c h k = k
put_read-IsCapped none t d c h k =
    let (some_read, le) = earlier-le t d h in
    record {
      set = k.set;
      some_read = rw k.set some_read;
      read = rw k.set le;
      some_write = k.some_write;
      write = k.write;
    }

put_write-IsCapped :
    (f : Option Cause) (t d : ℕ) (c : DeadlineConn)
    → 1 ≤ d
    → IsCapped d c
    → IsCapped d (put_write f (earlier t c.operation_deadline) c).1
put_write-IsCapped (some e) t d c h k = k
put_write-IsCapped none t d c h k =
    let (some_write, le) = earlier-le t d h in
    record {
      set = k.set;
      some_read = k.some_read;
      read = k.read;
      some_write = rw k.set some_write;
      write = rw k.set le;
    }

then_write-IsCapped :
    (f : Option Cause) (d : ℕ) (r : Result Cause (Unit {0}) × DeadlineConn)
    → 1 ≤ d
    → IsCapped d r.1
    → IsCapped d (then_write f r).1
then_write-IsCapped f d (err e, c) h k = k
then_write-IsCapped f d (ok u, c) h k = put_write-IsCapped f c.write_deadline d c h k

apply-IsCapped :
    (f : Refusals) (d : ℕ) (c : DeadlineConn)
    → 1 ≤ d
    → IsCapped d c
    → IsCapped d (apply_locked f c).1
unfolding apply_locked
apply-IsCapped f d c h k =
    then_write-IsCapped f.write d _ h (put_read-IsCapped f.read c.read_deadline d c h k)

-- The deadlines that the driver asked for are no part of it.
asked :
    (d r w : ℕ) (c : DeadlineConn)
    → IsCapped d c
    → IsCapped d (record c { read_deadline = r; write_deadline = w })
asked d r w c k = record {
  set = k.set;
  some_read = k.some_read;
  read = k.read;
  some_write = k.some_write;
  write = k.write;
}

call-IsCapped :
    (d : ℕ) (c : DeadlineConn) (k : Call × Refusals) → 1 ≤ d → IsCapped d c → IsCapped d (call c k)
unfolding call set_deadline set_read_deadline set_write_deadline
call-IsCapped d c (sets t, f) h k = apply-IsCapped f d _ h (asked d t t c k)
call-IsCapped d c (sets_read t, f) h k =
    put_read-IsCapped f.read t d _ h (asked d t c.write_deadline c k)
call-IsCapped d c (sets_write t, f) h k =
    put_write-IsCapped f.write t d _ h (asked d c.read_deadline t c k)

calls-IsCapped :
    (d : ℕ) (c : DeadlineConn) (ks : List (Call × Refusals))
    → 1 ≤ d
    → IsCapped d c
    → IsCapped d (calls c ks)
unfolding calls
calls-IsCapped d c [] h k = k
calls-IsCapped d c (x ∷ xs) h k = calls-IsCapped d (call c x) xs h (call-IsCapped d c x h k)

-- What is in force once both directions took their deadlines.
applied :
    (r w : Option Cause) (d : ℕ) (c : DeadlineConn)
    → 1 ≤ d
    → c.operation_deadline ≡ d
    → (apply_locked (record { read = r; write = w }) c).0 ≡ ok tt
    → IsCapped d (apply_locked (record { read = r; write = w }) c).1
unfolding apply_locked
applied (some e) w d c h same fine = absurd (cc fine)
applied none (some e) d c h same fine = absurd (cc fine)
applied none none d c h same fine =
    let (some_read, read) = earlier-le c.read_deadline d h in
    let (some_write, write) = earlier-le c.write_deadline d h in
    record {
      set = same;
      some_read = rw same some_read;
      read = rw same read;
      some_write = rw same some_write;
      write = rw same write;
    }

limited :
    (f : Refusals) (d : ℕ) (c : DeadlineConn)
    → 1 ≤ d
    → (limit f d c).0 ≡ ok tt
    → IsCapped d (limit f d c).1
unfolding limit
limited f d c h fine = applied f.read f.write d (record c { operation_deadline = d }) h refl fine

-- A driver cannot outlast an operation: after a limit that the socket took, whatever deadlines the
-- driver sets while the operation runs, and whichever of them the socket refuses, both directions of the
-- socket have a deadline, and none is later than the operation's.
pub limit-IsCapped :
    (f : Refusals) (d : ℕ) (c : DeadlineConn) (ks : List (Call × Refusals))
    → 1 ≤ d
    → (limit f d c).0 ≡ ok tt
    → IsCapped d (calls (limit f d c).1 ks)
limit-IsCapped f d c ks h fine = calls-IsCapped d (limit f d c).1 ks h (limited f d c h fine)
