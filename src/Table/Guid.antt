-- ===== src/Table/Guid.antt =====
-- The type GUIDs of src/table/create.rs as their 16 bytes on disk, and the RFC 4122 field order.
use disk_edit.Prelude.{ℕ, ◌≡◌, ◌↔◌, Bool, true, false, ◌&&◌, List, [], ◌∷◌, ◌==◌, arith}

-- `[u8; 16]`
abbrev pub Guid : Type 0
Guid = List ℕ

-- `==` on byte arrays.
unfoldable pub guid_eq : Guid → Guid → Bool
guid_eq [] [] = true
guid_eq (a ∷ as') (b ∷ bs) = a == b && guid_eq as' bs
guid_eq [] (b ∷ bs) = false
guid_eq (a ∷ as') [] = false

pub guid_eq_iff : (a b : Guid) → (guid_eq a b ≡ true) ↔ (a ≡ b)
unfolding guid_eq
guid_eq_iff [] [] = ground arith
guid_eq_iff [] (b ∷ bs) = ground arith
guid_eq_iff (a ∷ as') [] = ground arith
guid_eq_iff (a ∷ as') (b ∷ bs) = ground (arith, guid_eq_iff as' bs)

abbrev pub esp_type_guid : Guid
esp_type_guid =
    0x28 ∷ 0x73 ∷ 0x2A ∷ 0xC1 ∷ 0x1F ∷ 0xF8 ∷ 0xD2 ∷ 0x11 ∷ 0xBA ∷ 0x4B ∷ 0x00 ∷ 0xA0 ∷ 0xC9 ∷ 0x3E
    ∷ 0xC9 ∷ 0x3B ∷ []

abbrev pub linux_fs_type_guid : Guid
linux_fs_type_guid =
    0xAF ∷ 0x3D ∷ 0xC6 ∷ 0x0F ∷ 0x83 ∷ 0x84 ∷ 0x72 ∷ 0x47 ∷ 0x8E ∷ 0x79 ∷ 0x3D ∷ 0x69 ∷ 0xD8 ∷ 0x47
    ∷ 0x7D ∷ 0xE4 ∷ []

abbrev pub basic_data_type_guid : Guid
basic_data_type_guid =
    0xEB ∷ 0xD0 ∷ 0xA0 ∷ 0xA2 ∷ 0xB9 ∷ 0xE5 ∷ 0x44 ∷ 0x33 ∷ 0x87 ∷ 0xC0 ∷ 0x68 ∷ 0xB6 ∷ 0xB7 ∷ 0x26
    ∷ 0x99 ∷ 0xC7 ∷ []

abbrev pub swap_type_guid : Guid
swap_type_guid =
    0x6D ∷ 0xFD ∷ 0x57 ∷ 0x06 ∷ 0xAB ∷ 0xA4 ∷ 0xC4 ∷ 0x43 ∷ 0x84 ∷ 0xE5 ∷ 0x09 ∷ 0x33 ∷ 0xC8 ∷ 0x4B
    ∷ 0x4F ∷ 0x4F ∷ []

abbrev pub luks_type_guid : Guid
luks_type_guid =
    0xCB ∷ 0x7C ∷ 0x7D ∷ 0xCA ∷ 0xED ∷ 0x63 ∷ 0x53 ∷ 0x4C ∷ 0x86 ∷ 0x1C ∷ 0x17 ∷ 0x42 ∷ 0x53 ∷ 0x60
    ∷ 0x59 ∷ 0xCC ∷ []

abbrev pub lvm_type_guid : Guid
lvm_type_guid =
    0x79 ∷ 0xD3 ∷ 0xD6 ∷ 0xE6 ∷ 0x07 ∷ 0xF5 ∷ 0xC2 ∷ 0x44 ∷ 0xA2 ∷ 0x3C ∷ 0x23 ∷ 0x8F ∷ 0x2A ∷ 0x3D
    ∷ 0xF9 ∷ 0x28 ∷ []

-- The three leading fields are reversed in place. A GUID has 16 bytes; shorter lists are no GUIDs.
unfoldable pub guid_in_field_order : Guid → Guid
guid_in_field_order (a ∷ b ∷ c ∷ d ∷ e ∷ f ∷ g ∷ h ∷ rest) = d ∷ c ∷ b ∷ a ∷ f ∷ e ∷ h ∷ g ∷ rest
guid_in_field_order g = g
