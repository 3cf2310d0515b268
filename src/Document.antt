-- ===== src/Document.antt =====
-- `Document` of src/document.rs, the schema-less value. A string is its UTF-8 bytes, an `f64` its
-- bits, a `DocId` its 16 bytes, and an object its fields in insertion order.
use trunkdb.Base.{ℕ, Bool, Bytes}
use trunkdb.Base.Int.{ℤ}
use trunkdb.DateTime.{DateTime}

mutual
  pub data Document : Type 0 where
    null : Document
    bool : Bool → Document
    int : ℤ → Document
    float : ℕ → Document
    string : Bytes → Document
    binary : Bytes → Document
    array : Elements → Document
    object : Fields → Document
    id : Bytes → Document
    date_time : DateTime → Document

  pub data Elements : Type 0 where
    nil : Elements
    cons : Document → Elements → Elements

  pub data Fields : Type 0 where
    end : Fields
    field : Bytes → Document → Fields → Fields
