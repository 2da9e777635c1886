-- ===== src/Linode/Instances.antt =====
-- The instances of services/linode/src/lib.rs. A panic is `none`.
use emporium.Prelude.{
  ℕ, String, Bool, ◌&&◌, ◌||◌, Option, none, some, List, [], ◌∷◌, leb, nat_beq, if◌then◌else◌,
}

-- `InstanceStatus`
pub data InstanceStatus : Type 0 where
  running offline booting rebooting shutting_down provisioning : InstanceStatus
  deleting migrating rebuilding cloning restoring stopped : InstanceStatus

-- `Ipv4Addr`, by its octets
pub record Ipv4Addr : Type 0 where
  pub first : ℕ
  pub second : ℕ
  pub third : ℕ
  pub fourth : ℕ

-- `Ipv4Addr::is_private`
unfoldable pub is_private : Ipv4Addr → Bool
is_private i =
    nat_beq i.first 10
    || (nat_beq i.first 172 && leb 16 i.second && leb i.second 31)
    || (nat_beq i.first 192 && nat_beq i.second 168)

-- `GetInstance` and `Instance`; an address of version 6 is its text
pub record GetInstance : Type 0 where
  pub id : ℕ
  pub ipv6 : Option String
  pub ipv4 : List Ipv4Addr
  pub label : String
  pub status : InstanceStatus
  pub image : String

pub record Instance : Type 0 where
  pub id : ℕ
  pub ipv6 : Option String
  pub ipv4 : Ipv4Addr
  pub label : String
  pub status : InstanceStatus
  pub image : String

-- the first address that is not private
unfoldable pub find_public : List Ipv4Addr → Option Ipv4Addr
unfolding is_private
find_public [] = none
find_public (i ∷ rest) = if is_private i then find_public rest else some i

-- `Instance::new`
unfoldable pub new_instance : GetInstance → Option Instance
unfolding find_public
new_instance get = elim (find_public get.ipv4) [
  | none ↦ none
  | some i ↦ some (record {
    id = get.id;
    ipv6 = get.ipv6;
    ipv4 = i;
    label = get.label;
    status = get.status;
    image = get.image;
  })
]
