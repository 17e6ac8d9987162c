-- ===== src/Config.antt =====
-- include/fs/config.h
use simple_file_system.Base.{ℕ}

abbrev pub magic_number : ℕ
magic_number = 0x46530001

abbrev pub max_filename_length : ℕ
max_filename_length = 255

abbrev pub cluster_size : ℕ
cluster_size = 4096

abbrev pub inode_count : ℕ
inode_count = 1024

abbrev pub direct_pointers : ℕ
direct_pointers = 12

abbrev pub superblock_cluster_index : ℕ
superblock_cluster_index = 0

abbrev pub bitmap_start_cluster_index : ℕ
bitmap_start_cluster_index = 1

abbrev pub bitmap_inode_id : ℕ
bitmap_inode_id = 0

abbrev pub index_table_inode_id : ℕ
index_table_inode_id = 1
