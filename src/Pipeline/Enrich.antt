-- ===== src/Pipeline/Enrich.antt =====
-- src/pipeline/enrich.rs: the static values that are added to every event. What the host answers is
-- the record `Host`.
pub mod Laws
use softnix_log_agent.Prelude.{
  Bool, true, false, Option, none, some, List, [], ◌∷◌, ◌++◌, if◌then◌else◌,
}
use Prim.Native.String.{String, ◌++◌ as str_append}
use softnix_log_agent.Event.{Value, string, Event, get, insert}

-- The hostname, the names of the system and the architecture, the local address, and a JSON array.
pub record Host (Tree : Type 0) : Type 0 where
  pub hostname : Option String
  pub os : String
  pub arch : String
  pub local_ip : Option String
  pub array_of : List String → Tree

pub record EnrichConfig (Num Tree : Type 0) : Type 0 where
  pub hostname : Bool
  pub os_info : Bool
  pub agent_version : Bool
  pub local_ip : Bool
  pub environment : Option String
  pub site : Option String
  pub tenant : Option String
  pub customer : Option String
  pub tags : List String
  pub fields : List (String × Value Num Tree)

pub record Enricher (Num Tree : Type 0) : Type 0 where
  pub hostname : Option String
  pub os : Option String
  pub local_ip : Option String
  pub environment : Option String
  pub site : Option String
  pub tenant : Option String
  pub customer : Option String
  pub tags : List String
  pub fields : List (String × Value Num Tree)

module _ {V : Type 0} where
  -- `entry(key).or_insert_with(..)`
  unfoldable pub or_insert : String → V → List (String × V) → List (String × V)
  or_insert k v m = elim (get k m) [ none ↦ insert k v m | some _ ↦ m ]

  unfoldable pub or_insert_all : List (String × V) → List (String × V) → List (String × V)
  or_insert_all [] m = m
  or_insert_all ((k, v) ∷ ds) m = or_insert_all ds (or_insert k v m)

module _ {Num Tree : Type 0} (host : Host Tree) where
  unfoldable pub new_enricher : EnrichConfig Num Tree → Enricher Num Tree
  new_enricher cfg = record {
    hostname = if cfg.hostname then host.hostname else none;
    os = if cfg.os_info then some (str_append host.os (str_append " " host.arch)) else none;
    local_ip = if cfg.local_ip then host.local_ip else none;
    environment = cfg.environment;
    site = cfg.site;
    tenant = cfg.tenant;
    customer = cfg.customer;
    tags = cfg.tags;
    fields = cfg.fields;
  }

  -- `if let Some(v) = val { .. }`
  abbrev entry_of : String → Option String → List (String × Value Num Tree)
  entry_of key none = []
  entry_of key (some v) = (key, string v) ∷ []

  abbrev tags_entry : List String → List (String × Value Num Tree)
  tags_entry [] = []
  tags_entry (t ∷ ts) = ("tags", Value.tree (host.array_of (t ∷ ts))) ∷ []

  -- The entries that `apply` offers, in its order.
  unfoldable pub entries : Enricher Num Tree → List (String × Value Num Tree)
  entries e =
      entry_of "os" e.os
      ++ (entry_of "local_ip" e.local_ip
          ++ (entry_of "environment" e.environment
              ++ (entry_of "site" e.site
                  ++ (entry_of "tenant" e.tenant
                      ++ (entry_of "customer" e.customer ++ (tags_entry e.tags ++ e.fields))))))

module _ {Time Num Tree : Type 0} (host : Host Tree) where
  unfoldable pub enrich : Enricher Num Tree → Event Time Num Tree → Event Time Num Tree
  enrich e ev = record ev {
    hostname = elim ev.hostname [ none ↦ e.hostname | some h ↦ some h ];
    fields = or_insert_all (entries host e) ev.fields;
  }
