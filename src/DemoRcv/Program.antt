-- ===== src/DemoRcv/Program.antt =====
-- The state of the demo receiver (examples/demo_rcv/src/main.rs) and what its commands are made of.
use sacn_rust.Common.{ℕ, Option, none, some, List, [], ◌∷◌, ◌++◌, Outcome, ok, err, panic}
use sacn_rust.Common.State.{Stateful}
use sacn_rust.Error.{SacnError, IoErrorKind}
use sacn_rust.External.{UuidCrate, NetworkEndian}
use sacn_rust.Receive.Merge.{DmxData}
use sacn_rust.Receive.Network.{SocketCalls, ReadCalls}
use sacn_rust.Receive.Receiver.{SacnReceiver}
use sacn_rust.Receive.Recv.{recv}
use sacn_rust.DemoSrc.Input.{Word}
use sacn_rust.DemoSrc.Program.{DemoError, sacn, file_failed}
use sacn_rust.DemoRcv.Printing.{Printed}

-- The other calls of the program: `sleep`, and creating and writing a file.
pub record HostCalls (W : Type 0) : Type 0 where
  pub sleep : ℕ → W → W
  pub create : Word → Stateful W IoErrorKind (Unit {0})
  pub write : List ℕ → Stateful W IoErrorKind (Unit {0})

pub record Program (W S U : Type 0) : Type 0 where
  pub world : W
  pub receiver : SacnReceiver S U
  pub printed : List (Printed U)

-- A command, with `none` when a call of `recv` has run out of fuel.
abbrev pub Command : Type 0 → Type 0 → Type 0 → Type 0 → Type 0
Command W S U A = Program W S U → Option (Outcome (DemoError U) A × Program W S U)

-- `?` on a call of the receiver, and on one of the host.
module _ {U : Type 0} where
  abbrev pub sacn_error : {A : Type 0} → Outcome (SacnError U) A → Outcome (DemoError U) A
  sacn_error (ok a) = ok a
  sacn_error (err e) = err (sacn e)
  sacn_error panic = panic

  abbrev pub io_error : Outcome IoErrorKind (Unit {0}) → Outcome (DemoError U) (Unit {0})
  io_error (ok a) = ok a
  io_error (err e) = err file_failed
  io_error panic = panic

module _ {W S U : Type 0} where
  abbrev pub pure : {A : Type 0} → Outcome (DemoError U) A → Command W S U A
  pure r self = some (r, self)

  abbrev pub and_then :
      {A B : Type 0}
      → Option (Outcome (DemoError U) A × Program W S U)
      → (A → Command W S U B)
      → Option (Outcome (DemoError U) B × Program W S U)
  and_then none f = none
  and_then (some (ok a, self)) f = f a self
  and_then (some (err e, self)) f = some (err e, self)
  and_then (some (panic, self)) f = some (panic, self)

  infixl 5 ◌>>=◌ ◌>>◌
  abbrev pub ◌>>=◌ : {A B : Type 0} → Command W S U A → (A → Command W S U B) → Command W S U B
  ◌>>=◌ m f self = and_then (m self) f

  abbrev pub ◌>>◌ : {A B : Type 0} → Command W S U A → Command W S U B → Command W S U B
  m >> k = m >>= λ _. k

  -- `setting` is a call that cannot fail.
  abbrev pub on_receiver :
      {A : Type 0} → Stateful (SacnReceiver S U) (SacnError U) A → Command W S U A
  on_receiver m self =
      let r = m self.receiver in some (sacn_error (r.0), record self { receiver = r.1 })

  abbrev pub setting : (SacnReceiver S U → SacnReceiver S U) → Command W S U (Unit {0})
  setting f self = some (ok tt, record self { receiver = f self.receiver })

  abbrev pub print : Printed U → Command W S U (Unit {0})
  print line self = some (ok tt, record self { printed = self.printed ++ (line ∷ []) })

  abbrev pub on_host : Stateful W IoErrorKind (Unit {0}) → Command W S U (Unit {0})
  on_host m self = let r = m self.world in some (io_error (r.0), record self { world = r.1 })

module _ {W S U : Type 0} ⦃crate : UuidCrate U⦄ ⦃net : NetworkEndian⦄ ⦃sockets : SocketCalls S⦄
    ⦃calls : ReadCalls S⦄ where
  -- `recv`, with what it returns.
  abbrev pub received_by :
      Option (Outcome (SacnError U) (List (DmxData U)) × SacnReceiver S U)
      → Program W S U
      → Option (Outcome (DemoError U) (Outcome (SacnError U) (List (DmxData U))) × Program W S U)
  received_by none self = none
  received_by (some (out, receiver)) self = some (ok out, record self { receiver = receiver })

  abbrev pub try_recv : ℕ → Option ℕ → Command W S U (Outcome (SacnError U) (List (DmxData U)))
  try_recv fuel timeout self = received_by (recv fuel timeout self.receiver) self
