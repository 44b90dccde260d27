-- ===== src/PartEdit/Device.antt =====
-- IsUsbDevice and InitDevicePath of PartEdit.c: the choice of the disk. What the boot services
-- say of each handle is a parameter.
pub mod First
pub mod Endless
use uefi_toolkit_pkg.Base.{
  ℕ, zero, suc, ◌+◌, ◌%◌, ◌^◌, Bool, true, false, ◌&&◌, ◌||◌, List, [], ◌∷◌, Option, none, some,
  length, get_or, ltb, ◌==◌, if◌then◌else◌, Status, success, error, efi_error, device_error,
}

-- A node of a device path: its type and subtype. A path is the nodes before its end.
pub record Node : Type 0 where
  pub node_type : ℕ
  pub sub_type : ℕ

-- MESSAGING_DEVICE_PATH and MSG_USB_DP are parameters; `none` stands for NULL.
unfoldable pub usb_loop : ℕ → ℕ → Bool → List Node → Bool
usb_loop messaging usb found [] = found
usb_loop messaging usb found (n ∷ nodes) =
    usb_loop messaging usb (if n.node_type == messaging && n.sub_type == usb then true else found)
      nodes

unfoldable pub is_usb_device : ℕ → ℕ → Option (List Node) → Bool
is_usb_device messaging usb none = false
is_usb_device messaging usb (some nodes) = usb_loop messaging usb false nodes

-- A handle of HandleBuffer: what HandleProtocol returns for it, its media, and its device path.
pub record Handle : Type 0 where
  pub block_io : Status
  pub disk_io : Status
  pub logical_partition : Bool
  pub removable_media : Bool
  pub device_path : Status
  pub nodes : List Node

abbrev pub no_handle : Handle
no_handle = record {
  block_io = error device_error;
  disk_io = error device_error;
  logical_partition = false;
  removable_media = false;
  device_path = error device_error;
  nodes = [];
}

-- What one round of the loop does: return a status, go on, or break.
pub data Round : Type 0 where
  returns : Status → Round
  continues breaks : Round

unfoldable pub round : ℕ → ℕ → Handle → Round
round messaging usb h =
    if efi_error h.block_io
    then returns h.block_io
    else if efi_error h.disk_io
    then returns h.disk_io
    else if h.logical_partition || h.removable_media
    then continues
    else if efi_error h.device_path
    then continues
    else if is_usb_device messaging usb (some h.nodes)
    then continues
    else breaks

-- The outcome: a status, or success with the index of the disk.
pub data Choice : Type 0 where
  fails : Status → Choice
  chosen : ℕ → Choice

-- What follows a round with this index; `next` is the rest of the loop.
abbrev pub on_round : Round → ℕ → Option Choice → Option Choice
on_round (returns status) index next = some (fails status)
on_round continues index next = next
on_round breaks index next = some (chosen index)

-- The for loop on fuel. Index is a UINT8.
unfoldable pub device_loop : ℕ → ℕ → ℕ → ℕ → List Handle → Option Choice
device_loop zero messaging usb index handles = none
device_loop (suc fuel) messaging usb index handles =
    let next = device_loop fuel messaging usb ((index + 1) % 2 ^ 8) handles in
    let passed = on_round (round messaging usb (get_or handles index no_handle)) index next in
    if ltb index (length handles) then passed else some (fails (error device_error))

-- InitDevicePath, with the status of LocateHandleBuffer. No more rounds than fuel are looked at.
unfoldable pub init_device_path : ℕ → ℕ → ℕ → Status → List Handle → Option Choice
init_device_path fuel messaging usb located handles =
    if efi_error located then some (fails located) else device_loop fuel messaging usb 0 handles
