-- ===== src/Tests/Sizes.antt =====
-- The attributes of a file of 5000 bytes that all may read and its owner may write.
use skyefs.Prelude.{◌≡◌, refl, arith, true, false, some, none}
use skyefs.Client.Files.{SysAttr, metafile, stat_of}
use skyefs.Client.Files.Sizes.{AreBlocks, st_blocks_lem}
use skyefs.Tests.Serving.{directory}

abbrev attrs : SysAttr
attrs = record {
  objtype = metafile;
  size = some 5000;
  link_target = none;
  owner = 1;
  group = 1;
  atime = 10;
  mtime = 11;
  ctime = 12;
  o_execute = false;
  o_write = false;
  o_read = true;
  g_execute = false;
  g_write = false;
  g_read = true;
  u_execute = false;
  u_write = true;
  u_read = true;
  g_sgid = false;
  u_suid = false;
}

st_blocks_example :
    ((stat_of directory attrs).st_size ≡ 5000) × AreBlocks 5000 (stat_of directory attrs).st_blocks
st_blocks_example = st_blocks_lem directory attrs 5000 refl refl (omega arith)
