-- ===== src/Provisioned/Laws.antt =====
-- How often a query of the provisioned data is answered.
use Prim.Native.String.{String}
use free5gc_udr.Base.{◌⊎◌}
use free5gc_udr.Models.{Document}
use free5gc_udr.Gin.{◌>>◌, Step}
use free5gc_udr.Database.{Mongo}
use free5gc_udr.Provisioned.{ProvisionedCodec}
use free5gc_udr.Provisioned.Parts.{Ends, EndsOnce, EndsFirst, SelectionFails}

module _ {Db : Type 0} (m : Mongo Db) (codec : ProvisionedCodec) where
  -- What a query comes to: one answer if it ends at the data on access and mobility; otherwise two if
  -- the decoding of the SMF selection data fails, and one if it does not.
  abbrev pub IsAnswered : Document → Db → Step Db (Unit {0}) → Type 0
  IsAnswered filter db r =
      (EndsFirst m codec filter db × EndsOnce m codec db r)
      ⊎ ((¬ EndsFirst m codec filter db)
          × SelectionFails m codec filter db
          × Ends m codec filter 2 db r)
      ⊎ ((¬ EndsFirst m codec filter db)
          × (¬ SelectionFails m codec filter db)
          × Ends m codec filter 1 db r)

  abbrev IsAnsweredFrom : Document → Db → Step Db (Unit {0}) → Type 0
  IsAnsweredFrom filter db r =
      (SelectionFails m codec filter db × Ends m codec filter 2 db r)
      ⊎ ((¬ SelectionFails m codec filter db) × Ends m codec filter 1 db r)
