-- ===== src/X11/Server.antt =====
-- What is not the program's: the X server behind x11rb's connection, the host's answer to a target
-- request, the clock, and the order in which a HashMap is walked. Each answer is a function of the
-- trace, which may be any.
use mathlib.Core.List.{Perm}
use clipbus.Base.{ℕ, Option, List, Table, Result}
use clipbus.Text.{Text}
use clipbus.Status.{ClipbusStatus}
use clipbus.Trace.{Atom, Window, PropertyRequest, Act, Trace}
use clipbus.X11.State.{PublishedTarget, PendingRequest}

-- A request with a reply: sending it may fail, and so may reading the reply. An error is its text
-- under Display.
pub data Reply (A : Type 0) : Type 0 where
  unsent : Text → Reply A
  unread : Text → Reply A
  answer : A → Reply A

-- x11rb's GetPropertyReply; `value32` is what its method of that name yields.
pub record PropertyReply : Type 0 where
  pub type_ : Atom
  pub format : ℕ
  pub bytes_after : ℕ
  pub value : Text
  pub value32 : Option (List ℕ)

pub record World : Type 0 where
  -- RustConnection::connect, by the display's name: the root window of its screen
  pub connect : Option Text → Result Text Window
  pub generate_id : Result Text Window
  -- a request with no reply: none if x11rb takes it, else the error
  pub refusal : Trace → Act → Option Text
  pub atom_of : Trace → Text → Reply Atom
  pub name_of : Trace → Atom → Reply Text
  pub owner : Trace → Reply Window
  pub property : Trace → PropertyRequest → Reply PropertyReply
  pub xfixes_version : Trace → Reply (Unit {0})
  pub maximum_request_bytes : ℕ
  pub now : Trace → ℕ
  pub target_request_answer : Trace → ClipbusStatus
  pub published_order : Trace → Table PublishedTarget → Table PublishedTarget
  pub pending_order : Trace → Table PendingRequest → Table PendingRequest
  -- a walk over a HashMap meets each entry once
  pub published_order_perm : (t : Trace) (m : Table PublishedTarget) → Perm (published_order t m) m
  pub pending_order_perm : (t : Trace) (m : Table PendingRequest) → Perm (pending_order t m) m
