-- ===== src/Broker/Deadline.antt =====
-- internal/adapters/rabbitmq/connection.go: the deadlines of the socket. A time is a number, 0 the zero
-- time, which is no deadline; every fault of the socket is an argument.
use payments_boilerplate.Base.{
  ℕ, ◌||◌, Option, none, some, ltb, eqb, if◌then◌else◌, Result, ok, err, List, [], ◌∷◌,
}
use payments_boilerplate.Receiver.Inbox.{Cause}

-- The deadlines in force on the `net.Conn`.
pub record Socket : Type 0 where
  pub read : ℕ
  pub write : ℕ

-- `deadlineConn`.
pub record DeadlineConn : Type 0 where
  pub conn : Socket
  pub read_deadline : ℕ
  pub write_deadline : ℕ
  pub operation_deadline : ℕ

-- Whether the socket refuses a read or a write deadline.
pub record Refusals : Type 0 where
  pub read : Option Cause
  pub write : Option Cause

-- `earlier`.
unfoldable pub earlier : ℕ → ℕ → ℕ
earlier first second =
    if eqb first 0 then second else (if eqb second 0 || ltb first second then first else second)

-- `Conn.SetReadDeadline` and `Conn.SetWriteDeadline`.
abbrev pub put_read : Option Cause → ℕ → DeadlineConn → Result Cause (Unit {0}) × DeadlineConn
put_read (some e) t c = (err e, c)
put_read none t c = (ok tt, record c { conn = record c.conn { read = t } })

abbrev pub put_write : Option Cause → ℕ → DeadlineConn → Result Cause (Unit {0}) × DeadlineConn
put_write (some e) t c = (err e, c)
put_write none t c = (ok tt, record c { conn = record c.conn { write = t } })

abbrev pub then_write :
    Option Cause → Result Cause (Unit {0}) × DeadlineConn → Result Cause (Unit {0}) × DeadlineConn
then_write f (err e, c) = (err e, c)
then_write f (ok u, c) = put_write f (earlier c.write_deadline c.operation_deadline) c

-- `applyLocked`.
unfoldable pub apply_locked : Refusals → DeadlineConn → Result Cause (Unit {0}) × DeadlineConn
unfolding earlier
apply_locked f c =
    then_write f.write (put_read f.read (earlier c.read_deadline c.operation_deadline) c)

-- `SetDeadline`.
unfoldable pub set_deadline : Refusals → ℕ → DeadlineConn → Result Cause (Unit {0}) × DeadlineConn
unfolding apply_locked
set_deadline f t c = apply_locked f (record c { read_deadline = t; write_deadline = t })

-- `SetReadDeadline`.
unfoldable pub set_read_deadline :
    Refusals → ℕ → DeadlineConn → Result Cause (Unit {0}) × DeadlineConn
unfolding earlier
set_read_deadline f t c =
    put_read f.read (earlier t c.operation_deadline) (record c { read_deadline = t })

-- `SetWriteDeadline`.
unfoldable pub set_write_deadline :
    Refusals → ℕ → DeadlineConn → Result Cause (Unit {0}) × DeadlineConn
unfolding earlier
set_write_deadline f t c =
    put_write f.write (earlier t c.operation_deadline) (record c { write_deadline = t })

-- `limit`.
unfoldable pub limit : Refusals → ℕ → DeadlineConn → Result Cause (Unit {0}) × DeadlineConn
unfolding apply_locked
limit f t c = apply_locked f (record c { operation_deadline = t })

-- `clearLimit`.
unfoldable pub clear_limit : Refusals → DeadlineConn → Result Cause (Unit {0}) × DeadlineConn
unfolding apply_locked
clear_limit f c = apply_locked f (record c { operation_deadline = 0 })

-- What the driver calls while an operation runs, at any times, its heartbeat included.
pub data Call : Type 0 where
  sets sets_read sets_write : ℕ → Call

unfoldable pub call : DeadlineConn → Call × Refusals → DeadlineConn
unfolding set_deadline set_read_deadline set_write_deadline
call c (sets t, f) = (set_deadline f t c).1
call c (sets_read t, f) = (set_read_deadline f t c).1
call c (sets_write t, f) = (set_write_deadline f t c).1

unfoldable pub calls : DeadlineConn → List (Call × Refusals) → DeadlineConn
unfolding call
calls c [] = c
calls c (k ∷ ks) = calls (call c k) ks
