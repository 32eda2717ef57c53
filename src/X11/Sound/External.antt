-- ===== src/X11/Sound/External.antt =====
-- The invariant under the handlers of X11/External.antt.
use Prim.Native.Nat.{zero-le}
use mathlib.Core.Option.{some-injective}
use clipbus.Base.{
  ℕ, ◌-◌, ◌≤◌, ◌≡◌, refl, List, [], ◌∷◌, ◌++◌, some, Bool, true, false, ◌&&◌, ◌||◌, not, length,
  arith, ltb, ◌==◌, subst, length-append, Result, ok, err, u32_max,
}
use clipbus.Text.{Text}
use clipbus.Status.{Status}
use clipbus.Clipboard.{Callbacks}
use clipbus.Clipboard.Notify.{notify_target_data}
use clipbus.Trace.{Act, Atom}
use clipbus.X11.State.{PendingRequest, ExternalIncrData, external_incr_data, external_targets}
use clipbus.X11.Server.{World, PropertyReply}
use clipbus.X11.Monad.{M, attempt, catch}
use clipbus.X11.Connection.{atom_name, notify, property_units_for_bytes}
use clipbus.X11.External.{
  unless_err, give_up_unless_ok, delivered, convert_selection, selection_owner_or_status,
  ask_owner_targets, answer_targets, request_targets_as, request_data_as, answer_no_owner,
  request_external_targets, ask_owner_data, request_external_target_data, atom_names,
  discard_property, read_property, complete_external_targets, reject_data, start_incr_read,
  begin_external_incr_read, deliver_data, complete_external_data, take_incr_chunk, read_incr_chunk,
  read_external_incr_chunk, notify_external_pending_failure, as_external_incr_data,
}
use clipbus.X11.Sound.Invariant.{Issued, Sound, AllActs, Fits}
use clipbus.X11.Sound.Rules.{
  Keeps, Keeps-take, Keeps-pure, Keeps-if, Keeps-bind, Keeps-catch, Keeps-attempt,
  Keeps-insert_pending,
}
use clipbus.X11.Sound.Connection.{
  connection_rules, Keeps-atom_name, Keeps-allocate, notify_target_data-Fits,
}

property_units-le : (n : ℕ) → property_units_for_bytes n ≤ u32_max
unfolding property_units_for_bytes
property_units-le n = omega arith

header_length : 1 ≤ u32_max
header_length = omega arith

targets_length : 4096 ≤ u32_max
targets_length = omega arith

module _ ⦃w : World⦄ where
  delivered-Fits :
      (id : ℕ) (target : Text) (max_bytes : ℕ) (reply : PropertyReply) (cb : Callbacks)
      → AllActs Fits (delivered id target max_bytes reply cb)
  delivered-Fits id target max_bytes reply cb = ground (
    arith,
    notify_target_data-Fits cb id target Status.unsupported [],
    notify_target_data-Fits cb id target Status.ok reply.value,
  )

module _ ⦃w : World⦄ {K : ℕ → Type 0} where
  Keeps-selection_owner_or_status : Keeps K selection_owner_or_status
  unfolding selection_owner_or_status
  Keeps-selection_owner_or_status = search connection_rules

  Keeps-answer_targets :
      (id : ℕ) (status : Status) (targets : List Text) → Keeps K (answer_targets id status targets)
  unfolding answer_targets
  Keeps-answer_targets id status targets = search connection_rules

  Keeps-discard_property : (property : Atom) → Keeps K (discard_property property)
  unfolding discard_property
  Keeps-discard_property property = search connection_rules

  Keeps-read_property :
      (c d : Text) (delete : Bool) (property type_ : Atom) (len : ℕ)
      → len ≤ u32_max
      → Keeps K (read_property c d delete property type_ len)
  unfolding read_property
  Keeps-read_property c d delete property type_ len h = search (connection_rules, h)

  Keeps-give_up : (id : ℕ) (r : Result Text (Unit {0})) → Keeps K (give_up_unless_ok id r)
  Keeps-give_up id (ok _) = search connection_rules
  Keeps-give_up id (err e) = search connection_rules

  Keeps-convert_selection :
      (id : ℕ) (target property : Atom) → Keeps K (convert_selection id target property)
  unfolding convert_selection
  Keeps-convert_selection id target property = search (connection_rules, Keeps-give_up) depth 8

  Keeps-atom_names : (atoms : List Atom) → Keeps K (atom_names atoms)
  unfolding atom_names
  Keeps-atom_names [] = search connection_rules
  Keeps-atom_names (a ∷ atoms) =
      Keeps-bind (catch (atom_name a)) _ (Keeps-catch (atom_name a) (Keeps-atom_name a)) λ r.
        Keeps-bind (atom_names atoms) _ (Keeps-atom_names atoms)
          (λ names. Keeps-pure (unless_err r names))

  pub Keeps-complete_external_targets :
      (id : ℕ) (property : Atom) → Keeps K (complete_external_targets id property)
  unfolding complete_external_targets
  Keeps-complete_external_targets id property =
      search
        (
          connection_rules, Keeps-read_property, targets_length, Keeps-atom_names,
          Keeps-discard_property,
        )
        depth 10

  Keeps-reject_data :
      (id : ℕ) (property : Atom) (target : Text) → Keeps K (reject_data id property target)
  unfolding reject_data
  Keeps-reject_data id property target = search (connection_rules, Keeps-discard_property)

  Keeps-deliver_data :
      (id : ℕ) (property : Atom) (target : Text) (max_bytes : ℕ) (reply : PropertyReply)
      → Keeps K (deliver_data id property target max_bytes reply)
  unfolding deliver_data
  Keeps-deliver_data id property target max_bytes reply =
      search (connection_rules, Keeps-discard_property, delivered-Fits id target max_bytes reply)

  pub Keeps-notify_external_pending_failure :
      {E : Type 0} (id : ℕ) (p : PendingRequest) (status : Status)
      → Keeps K (notify_external_pending_failure {E = E} id p status)
  unfolding notify_external_pending_failure
  Keeps-notify_external_pending_failure id (external_targets r) status = search connection_rules
  Keeps-notify_external_pending_failure id _ status = search connection_rules

module _ ⦃w : World⦄ (id : ℕ) where
  abbrev Here : {E A : Type 0} → M E A → Type 0
  Here = Keeps (λ next. Issued next id)

  Keeps-ask_owner_targets : Here (ask_owner_targets id)
  unfolding ask_owner_targets
  Keeps-ask_owner_targets = search (connection_rules, Keeps-convert_selection) depth 12

  Keeps-ask_owner_data : (target : Text) (max_bytes : ℕ) → Here (ask_owner_data id target max_bytes)
  unfolding ask_owner_data
  Keeps-ask_owner_data target max_bytes =
      search (connection_rules, Keeps-convert_selection) depth 12

  Keeps-start_incr_read :
      (property : Atom) (target : Text) (max_bytes : ℕ)
      → Here (start_incr_read id property target max_bytes)
  unfolding start_incr_read
  Keeps-start_incr_read property target max_bytes = search (connection_rules, zero-le) depth 12

  Keeps-begin_external_incr_read :
      (property : Atom) (target : Text) (max_bytes : ℕ)
      → Here (begin_external_incr_read id property target max_bytes)
  unfolding begin_external_incr_read
  Keeps-begin_external_incr_read property target max_bytes =
      search
        (
          connection_rules, Keeps-read_property, header_length, Keeps-reject_data,
          Keeps-start_incr_read,
        )
        depth 10

  pub Keeps-complete_external_data :
      (property : Atom) (target : Text) (max_bytes : ℕ)
      → Here (complete_external_data id property target max_bytes)
  unfolding complete_external_data
  Keeps-complete_external_data property target max_bytes =
      search
        (
          connection_rules, Keeps-read_property, property_units-le, Keeps-begin_external_incr_read,
          Keeps-deliver_data,
        )
        depth 10

  appended-Sound :
      (r : ExternalIncrData) (chunk : Text)
      → ltb (r.max_bytes - length r.payload) (length chunk) ≡ false
      → length r.payload ≤ r.max_bytes
      → length (r.payload ++ chunk) ≤ r.max_bytes
  appended-Sound r chunk room h = ground (arith, length-append r.payload chunk)

  Keeps-take_incr_chunk :
      (r : ExternalIncrData) (reply : PropertyReply)
      → Sound (external_incr_data r)
      → Here (take_incr_chunk id r reply)
  unfolding take_incr_chunk
  Keeps-take_incr_chunk r reply h =
      Keeps-if ((length reply.value == 0) && (reply.bytes_after == 0)) _ _
        (λ last.
          Keeps-bind (attempt Act.flush)
            (λ _. notify λ cb. notify_target_data cb id r.native_target Status.ok r.payload)
            (Keeps-attempt Act.flush tt) (λ _. search connection_rules))
        λ more.
          Keeps-if
            (not (reply.bytes_after == 0)
              || ltb (r.max_bytes - length r.payload) (length reply.value))
            _ _ (λ long. Keeps-reject_data id r.property r.native_target)
            λ room. Keeps-bind (attempt Act.flush) _ (Keeps-attempt Act.flush tt) λ _.
              Keeps-insert_pending id
                (external_incr_data (record r { payload = r.payload ++ reply.value }))
                (appended-Sound r reply.value (ground arith) h)

  Keeps-read_incr_chunk :
      (r : ExternalIncrData) → Sound (external_incr_data r) → Here (read_incr_chunk id r)
  unfolding read_incr_chunk
  Keeps-read_incr_chunk r h =
      Keeps-bind _ _ (Keeps-read_property _ _ true r.property _ _ (property_units-le _))
        (λ reply. Keeps-take_incr_chunk r reply h)

  as_external_incr_data-Sound :
      (p : PendingRequest) (r : ExternalIncrData)
      → as_external_incr_data (some p) ≡ some r
      → Sound p
      → Sound (external_incr_data r)
  as_external_incr_data-Sound (external_incr_data q) r e h =
      subst (λ x. Sound (external_incr_data x)) (some-injective q r e) h
  as_external_incr_data-Sound p r e h = cc

  pub Keeps-read_external_incr_chunk : Keeps (λ next. Unit {0}) (read_external_incr_chunk id)
  unfolding read_external_incr_chunk
  Keeps-read_external_incr_chunk =
      Keeps-take id as_external_incr_data _ (read_incr_chunk id) (λ r. Sound (external_incr_data r))
        refl as_external_incr_data-Sound (Keeps-pure tt) Keeps-read_incr_chunk

  Keeps-request_targets_as : Here (request_targets_as id)
  unfolding request_targets_as
  Keeps-request_targets_as =
      search
        (
          connection_rules, Keeps-selection_owner_or_status, Keeps-answer_targets,
          Keeps-ask_owner_targets,
        )
        depth 10

  Keeps-answer_no_owner : (target : Text) → Here (answer_no_owner id target)
  unfolding answer_no_owner
  Keeps-answer_no_owner target = search connection_rules

  Keeps-request_data_as :
      (target : Text) (max_bytes : ℕ) → Here (request_data_as target max_bytes id)
  unfolding request_data_as
  Keeps-request_data_as target max_bytes =
      search
        (
          connection_rules, Keeps-selection_owner_or_status, Keeps-answer_no_owner,
          Keeps-ask_owner_data,
        )
        depth 10

module _ ⦃w : World⦄ where
  pub Keeps-request_external_targets : Keeps (λ next. Unit {0}) request_external_targets
  unfolding request_external_targets
  Keeps-request_external_targets = Keeps-allocate request_targets_as Keeps-request_targets_as

  pub Keeps-request_external_target_data :
      (target : Text) (max_bytes : ℕ)
      → Keeps (λ next. Unit {0}) (request_external_target_data target max_bytes)
  unfolding request_external_target_data
  Keeps-request_external_target_data target max_bytes =
      Keeps-allocate (request_data_as target max_bytes)
        (λ id. Keeps-request_data_as id target max_bytes)
