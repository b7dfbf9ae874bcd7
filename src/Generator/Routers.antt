-- ===== src/Generator/Routers.antt =====
-- The routers at the two ends of each connection, from the three tables of
-- generate_connections.py.
use mini_internet_extention.Prelude.{String}

pub record TransitTopo : Type 0 where
  pub provider1 : String
  pub provider2 : String
  pub customer1 : String
  pub customer2 : String
  pub peer : String
  pub ixp : String

abbrev pub transit_as_topo : TransitTopo
transit_as_topo = record {
  provider1 = "LYON";
  provider2 = "MILA";
  customer1 = "MUNI";
  customer2 = "BASE";
  peer = "LUGA";
  ixp = "VIEN";
}

pub record Tier1Topo : Type 0 where
  pub ixp_central : String
  pub ixp_out : String
  pub peer1 : String
  pub peer2 : String
  pub provider1 : String
  pub provider2 : String

abbrev pub tier1_topo : Tier1Topo
tier1_topo = record {
  ixp_central = "ZURI";
  ixp_out = "BASE";
  peer1 = "ZURI";
  peer2 = "ZURI";
  provider1 = "ZURI";
  provider2 = "ZURI";
}

pub record StubTopo : Type 0 where
  pub ixp : String
  pub peer : String
  pub customer1 : String
  pub customer2 : String

abbrev pub stub_topo : StubTopo
stub_topo = record { ixp = "BASE"; peer = "ZURI"; customer1 = "ZURI"; customer2 = "ZURI" }
